-- ===== src/DataModel/Cluster/Laws.antt =====
-- matter/src/data_model/objects/cluster.rs and attribute.rs: what writing an attribute of a cluster
-- that is its base alone does.
use matter_rs.Base.{
  ℕ, ◌+◌, ◌^◌, ◌%◌, ◌≡◌, ◌≢◌, refl, sym, ap, subst, ◌∙◌, true, false, ◌==◌, ==_iff, get_elem?, set,
  get_elem?-set_self, get_elem?-set_ne, lt_of_get_elem?, some, none, Result, ok, err, panic,
  and_then, Bool-cases, Option-cases, inl, inr, arith, invalid,
}
use matter_rs.Base.Search.{position, position_found, position-set}
use matter_rs.Base.Flags.{Bitflags}
use matter_rs.Tlv.Element.{TlvElement, get_u8, get_u16, get_u32, get_u64, get_bool}
use matter_rs.InteractionModel.Status.{
  ImResult, done, refused, crashed, or_status, unsupported_attribute, unsupported_write,
}
use matter_rs.DataModel.Attribute.{
  Attribute, AttrValue, int64, uint8, uint16, uint32, uint64, boolean, custom, is_custom, fixed,
  update_from_tlv,
}
use matter_rs.DataModel.Attribute
use matter_rs.DataModel.Cluster.{
  Cluster, attribute_index, at_index, get_attribute, read_attribute_raw, cluster_changed, set_at,
  update_at, write_attribute_from_tlv,
}

-- A value for a typed access to an element, or a type mismatch.
abbrev IsTotal {ℓ} : {A : Type ℓ} → Result A → Type 0
IsTotal (ok a) = Unit
IsTotal (err e) = Unit
IsTotal panic = ⊥

and_then-IsTotal {ℓ κ} :
    {A : Type ℓ} {B : Type κ} (r : Result A) (f : A → B)
    → IsTotal r
    → IsTotal (and_then r (λ a. ok (f a)))
and_then-IsTotal (ok a) f h = tt
and_then-IsTotal (err e) f h = tt
and_then-IsTotal panic f h = elim h [ ]

update-IsTotal : (t : TlvElement) (v : AttrValue) → IsTotal (update_from_tlv t v)
unfolding update_from_tlv get_u8 get_u16 get_u32 get_u64 get_bool
update-IsTotal t (boolean v) = and_then-IsTotal (get_bool t) boolean (ground arith)
update-IsTotal t (uint8 v) = and_then-IsTotal (get_u8 t) uint8 (ground arith)
update-IsTotal t (uint16 v) = and_then-IsTotal (get_u16 t) uint16 (ground arith)
update-IsTotal t (uint32 v) = and_then-IsTotal (get_u32 t) uint32 (ground arith)
update-IsTotal t (uint64 v) = and_then-IsTotal (get_u64 t) uint64 (ground arith)
update-IsTotal t (int64 v) = tt
update-IsTotal t custom = tt

-- The other attributes keep their values.
abbrev pub OthersKept : ℕ → Cluster → Cluster → Type 0
OthersKept id c c' = (k : ℕ) → k ≢ id → read_attribute_raw k c' ≡ read_attribute_raw k c

module _ ⦃bf : Bitflags⦄ (id : ℕ) (t : TlvElement) (c : Cluster) where
  -- The value that was sent stands in the attribute, which is not fixed; the version has gone up.
  pub record IsWritten (c' : Cluster) : Type 0 where
    pub attribute : Attribute
    pub found : get_attribute id c ≡ some attribute
    pub not_custom : is_custom attribute.value ≡ false
    pub not_fixed : bf.contains attribute.quality fixed ≡ false
    pub new_value : AttrValue
    pub sent : update_from_tlv t attribute.value ≡ ok new_value
    pub stored : read_attribute_raw id c' ≡ done new_value
    pub others : OthersKept id c c'
    pub version : c'.data_ver ≡ (c.data_ver + 1) % 2 ^ 32

  abbrev pub WriteOutcome : ImResult (Unit {0}) × Cluster → Type 0
  WriteOutcome (done a, c') = IsWritten c'
  WriteOutcome (refused s, c') = c' ≡ c
  WriteOutcome (crashed, c') = ⊥

-- The cluster with a new value in the attribute at an index.
abbrev changed : ℕ → Attribute → AttrValue → Cluster → Cluster
changed i a v c =
    cluster_changed (record c { attributes = set c.attributes i (record a { value = v }) })

raw_found :
    (k i : ℕ) (b : Attribute) (c : Cluster)
    → position (λ x. x.id == k) c.attributes ≡ some i
    → get_elem? c.attributes i ≡ some b
    → read_attribute_raw k c ≡ done b.value
unfolding read_attribute_raw
raw_found k i b c first there =
    rw (first, read_attribute_raw, get_attribute, attribute_index) (rw there refl)

raw_missing :
    (k : ℕ) (c : Cluster)
    → position (λ x. x.id == k) c.attributes ≡ none
    → read_attribute_raw k c ≡ refused unsupported_attribute
unfolding read_attribute_raw
raw_missing k c e = rw (e, read_attribute_raw, get_attribute, attribute_index) refl

module _ (id i : ℕ) (a : Attribute) (v : AttrValue) (c : Cluster)
    (first : position (λ x. x.id == id) c.attributes ≡ some i)
    (there : get_elem? c.attributes i ≡ some a) where
  -- The write leaves every search for a number as it was.
  same_position :
      (k : ℕ)
      → position (λ x. x.id == k) (set c.attributes i (record a { value = v }))
        ≡ position (λ x. x.id == k) c.attributes
  same_position k =
      position-set (λ x. x.id == k) c.attributes i a (record a { value = v }) there refl

  changed_stored : read_attribute_raw id (changed i a v c) ≡ done v
  unfolding cluster_changed
  changed_stored =
      raw_found id i (record a { value = v }) (changed i a v c) (same_position id ∙ first)
        (get_elem?-set_self c.attributes i (record a { value = v })
          (lt_of_get_elem? c.attributes i a there))

  changed_others : OthersKept id c (changed i a v c)
  unfolding cluster_changed
  changed_others k ne = elim (Option-cases (position (λ x. x.id == k) c.attributes)) [
    | inl e ↦ raw_missing k (changed i a v c) (same_position k ∙ e) ∙ sym (raw_missing k c e)
    | inr (j, e) ↦
        let (b, at, passes) = position_found (λ x. x.id == k) c.attributes j e in
        let (a', at', passes') = position_found (λ x. x.id == id) c.attributes i first in
        let apart : i ≢ j = λ eq.
          let it : b ≡ a' = cc (at, at', eq) in
          ne (sym ((==_iff b.id k).0 passes) ∙ ap (λ x. x.id) it ∙ (==_iff a'.id id).0 passes') in
        raw_found k j b (changed i a v c) (same_position k ∙ e)
          (get_elem?-set_ne c.attributes i j (record a { value = v }) apart ∙ at)
        ∙ sym (raw_found k j b c e at)
  ]

module _ ⦃bf : Bitflags⦄ (i : ℕ) (a : Attribute) (v : AttrValue) (c : Cluster) where
  set_value_free :
      bf.contains a.quality fixed ≡ false
      → Attribute.set_value v a ≡ (ok tt, record a { value = v })
  unfolding Attribute.set_value
  set_value_free f = rw f refl

  pub set_at_free : bf.contains a.quality fixed ≡ false → set_at i a v c ≡ (ok tt, changed i a v c)
  set_at_free f =
      rw (set_value_free f, set_at)
        (ap (λ p. (ok tt, cluster_changed (record c { attributes = set c.attributes i p.1 })))
          (set_value_free f))

  pub set_at-fixed : bf.contains a.quality fixed ≡ true → set_at i a v c ≡ (err invalid, c)
  unfolding Attribute.set_value
  set_at-fixed f = rw (f, set_at) refl

module _ ⦃bf : Bitflags⦄ (id : ℕ) (t : TlvElement) (c : Cluster) where
  -- The outcome of a write, from that of `set_at`.
  abbrev SetOutcome : Result (Unit {0}) × Cluster → Type 0
  SetOutcome p = WriteOutcome id t c (or_status unsupported_write p.0, p.1)

  update_at_lem :
      (i : ℕ) (a : Attribute)
      → position (λ x. x.id == id) c.attributes ≡ some i
      → get_elem? c.attributes i ≡ some a
      → WriteOutcome id t c (update_at i a t c)
  unfolding get_attribute attribute_index cluster_changed
  update_at_lem i a first there = elim (Bool-cases (is_custom a.value)) [
    | inl e ↦ rw (e, update_at) refl
    | inr not_custom ↦
        by_update not_custom (update_from_tlv t a.value) refl (update-IsTotal t a.value)
  ]
    where
      by_update :
          is_custom a.value ≡ false
          → (r : Result AttrValue) → update_from_tlv t a.value ≡ r
          → IsTotal r
          → WriteOutcome id t c (update_at i a t c)
      by_update not_custom (err x) e h = rw (not_custom, update_at) (rw e refl)
      by_update not_custom panic e h = elim h [ ]
      by_update not_custom (ok v) e h = elim (Bool-cases (bf.contains a.quality fixed)) [
        | inl f ↦
            rw (not_custom, update_at) (rw e (subst SetOutcome (sym (set_at-fixed i a v c f)) refl))
        | inr f ↦
            rw (not_custom, update_at)
              (rw e (
                subst SetOutcome (sym (set_at_free i a v c f)) (record {
                  attribute = a;
                  found = rw (first, at_index) there;
                  not_custom = not_custom;
                  not_fixed = f;
                  new_value = v;
                  sent = e;
                  stored = changed_stored id i a v c first there;
                  others = changed_others id i a v c first there;
                  version = refl;
                })))
      ]

  -- A write of an attribute to a cluster that is its base alone never panics. Where it succeeds, the
  -- attribute is there and is neither custom nor fixed, its value is then the one that was sent, the
  -- other attributes keep their values, and the data version has gone up by one, modulo 2 ^ 32. Where
  -- it is refused, the cluster is as it was.
  pub write_attribute_from_tlv_lem : WriteOutcome id t c (write_attribute_from_tlv id t c)
  unfolding write_attribute_from_tlv attribute_index
  write_attribute_from_tlv_lem = elim (Option-cases (position (λ x. x.id == id) c.attributes)) [
    | inl e ↦ rw (e, write_attribute_from_tlv, attribute_index) refl
    | inr (i, e) ↦
        let (a, there, _) = position_found (λ x. x.id == id) c.attributes i e in
        rw (e, write_attribute_from_tlv, attribute_index) (rw there (update_at_lem i a e there))
  ]
