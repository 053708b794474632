-- ===== src/Fabric/Store.antt =====
-- matter/src/fabric.rs: what is stored of a fabric is what is loaded.
use matter_rs.Base.{
  ℕ, ◌≡◌, ◌≢◌, refl, sym, subst, ◌∙◌, ◌==◌, ==_iff, false, List, [], ◌∷◌, All, Result, ok, err,
  panic, and_then, Bool-cases, inl, inr, arith,
}
use matter_rs.Base.Exec.{Exec, lift, ◌>>=◌, bind_inv, bind_keeps}
use matter_rs.Fabric.{
  Item, rca, ica, noc_, ipk_, pubkey, privkey, key_eq, Psm, Backend, Fabric, max_cert_tlv_len, new,
  store_item, store_items, items, store, load,
}

module _ {C K N P : Type 0} (backend : Backend C K N) (psm : Psm P) (index : ℕ) where
  -- A value stands under its key.
  abbrev Stands : P → Item × Result (List ℕ) → Type 0
  Stands p (item, r) = (v : List ℕ) × (r ≡ ok v) × (psm.get_kv_slice index item p ≡ ok v)

  store_item_lem :
      (item : Item) (r : Result (List ℕ)) (p : P)
      → (store_item backend psm index item r p).0 ≡ ok tt
      → Stands (store_item backend psm index item r p).1 (item, r)
  unfolding store_item ◌>>=◌
  store_item_lem item (ok v) p h = (v, refl, psm.get-set_self index item v p h)
  store_item_lem item (err e) p h = absurd cc
  store_item_lem item panic p h = absurd cc

  store_item_other :
      (j : ℕ) (b item : Item) (r : Result (List ℕ)) (p : P)
      → key_eq j b index item ≡ false
      → psm.get_kv_slice j b (store_item backend psm index item r p).1 ≡ psm.get_kv_slice j b p
  unfolding store_item ◌>>=◌
  store_item_other j b item (ok v) p h = psm.get-set_other index j item b v p h
  store_item_other j b item (err e) p h = refl
  store_item_other j b item panic p h = refl

  -- What is stored under other keys leaves a key alone.
  pub store_items_other :
      (j : ℕ) (b : Item) (xs : List (Item × Result (List ℕ))) (p : P)
      → All (λ x. key_eq j b index x.0 ≡ false) xs
      → psm.get_kv_slice j b (store_items backend psm index xs p).1 ≡ psm.get_kv_slice j b p
  unfolding store_items
  store_items_other j b [] p h = refl
  store_items_other j b ((item, r) ∷ xs) p h =
      bind_keeps (λ s. psm.get_kv_slice j b s ≡ psm.get_kv_slice j b p)
        (store_item backend psm index item r) (λ _. store_items backend psm index xs)
        (λ s e. store_item_other j b item r s h.0 ∙ e) (λ _ s e. store_items_other j b xs s h.1 ∙ e)
        p refl

  -- Each item is another one than those behind it.
  abbrev AreDistinct : List (Item × Result (List ℕ)) → Type 0
  AreDistinct [] = Unit
  AreDistinct (x ∷ xs) = All (λ y. key_eq index x.0 index y.0 ≡ false) xs × AreDistinct xs

  store_items_lem :
      (xs : List (Item × Result (List ℕ))) (p : P)
      → AreDistinct xs
      → (store_items backend psm index xs p).0 ≡ ok tt
      → All (Stands (store_items backend psm index xs p).1) xs
  unfolding store_items
  store_items_lem [] p d h = tt
  store_items_lem ((item, r) ∷ xs) p d h =
      let (_, first, step, rest) =
        bind_inv (store_item backend psm index item r) (λ _. store_items backend psm index xs) p tt
          h in
      let p' = (store_item backend psm index item r p).1 in
      let (v, e, there) = store_item_lem item r p first in
      subst (λ t. All (Stands t.1) ((item, r) ∷ xs)) (sym step)
        ((v, e, store_items_other index item xs p' d.0 ∙ there), store_items_lem xs p' d.1 rest)

module _ {C K N P : Type 0} (backend : Backend C K N) (psm : Psm P) where
  open backend use {as_tlv, new_cert, get_public_key, get_private_key, new_from_components}

  -- What is made anew of the encodings of the parts.
  abbrev rebuilt :
      Result (List ℕ)
      → Result (List ℕ)
      → Result (List ℕ)
      → Result (List ℕ)
      → Result (List ℕ)
      → Result (List ℕ)
      → Exec N (Fabric C K)
  rebuilt root_text icac_text noc_text key_text pub_text priv_text = do
    root_ca ← lift (and_then root_text new_cert)
    icac ← lift (and_then icac_text new_cert)
    noc ← lift (and_then noc_text new_cert)
    epoch_key ← lift key_text
    pub_key ← lift pub_text
    priv_key ← lift priv_text
    key_pair ← lift (new_from_components pub_key priv_key)
    new backend key_pair root_ca icac noc epoch_key

  -- A fabric that is made anew of the encodings of its certificates and its key pair, and of the epoch
  -- key.
  abbrev pub reread : Fabric C K → Exec N (Fabric C K)
  reread f =
      rebuilt (as_tlv max_cert_tlv_len f.root_ca) (as_tlv max_cert_tlv_len f.icac)
        (as_tlv max_cert_tlv_len f.noc) (ok f.ipk.epoch_key) (get_public_key f.key_pair)
        (get_private_key f.key_pair)

  -- The value of a key is what was to be stored under it.
  Stands-same :
      (index : ℕ) (p : P) (item : Item) (r : Result (List ℕ))
      → Stands backend psm index p (item, r)
      → psm.get_kv_slice index item p ≡ r
  Stands-same index p item r (v, e, s) = s ∙ sym e

  load-store_same :
      (index : ℕ) (f : Fabric C K) (p : P) (n : N)
      → (store backend psm index f p).0 ≡ ok tt
      → load backend psm index (store backend psm index f p).1 n ≡ reread f n
  unfolding store load
  load-store_same index f p n h =
      let p' = (store_items backend psm index (items backend psm f) p).1 in
      let (s1, (s2, (s3, (s4, (s5, (s6, _)))))) =
        store_items_lem backend psm index (items backend psm f) p (ground arith) h in
      let e1 = Stands-same index p' rca (as_tlv max_cert_tlv_len f.root_ca) s1 in
      let e2 = Stands-same index p' ica (as_tlv max_cert_tlv_len f.icac) s2 in
      let e3 = Stands-same index p' noc_ (as_tlv max_cert_tlv_len f.noc) s3 in
      let e4 = Stands-same index p' ipk_ (ok f.ipk.epoch_key) s4 in
      let e5 = Stands-same index p' pubkey (get_public_key f.key_pair) s5 in
      let e6 = Stands-same index p' privkey (get_private_key f.key_pair) s6 in
      λ i. rebuilt (e1 i) (e2 i) (e3 i) (e4 i) (e5 i) (e6 i) n

  -- Storing a fabric leaves what is loaded at other indices.
  load-store_other :
      (index j : ℕ) (f : Fabric C K) (p : P) (n : N)
      → index ≢ j
      → load backend psm j (store backend psm index f p).1 n ≡ load backend psm j p n
  unfolding store load
  load-store_other index j f p n ne =
      let p' = (store_items backend psm index (items backend psm f) p).1 in
      let other = λ (b : Item). store_items_other backend psm index j b (items backend psm f) p (
        differs rca b,
        (
          differs ica b,
          (differs noc_ b, (differs ipk_ b, (differs pubkey b, (differs privkey b, tt)))),
        ),
      ) in
      λ i.
        rebuilt (other rca i) (other ica i) (other noc_ i) (other ipk_ i) (other pubkey i)
          (other privkey i) n
    where
      differs : (a b : Item) → key_eq j b index a ≡ false
      differs a b = elim (Bool-cases (j == index)) [
        | inl e ↦ absurd (ne (sym ((==_iff j index).0 e)))
        | inr e ↦ ground (arith, e)
      ]

  -- A fabric that was stored with success is loaded as what `new` makes of its certificates, its key
  -- pair and its epoch key, each decoded from its own encoding. Whether storing it ends well or not,
  -- what is loaded at every other index is as before.
  pub load-store :
      (index : ℕ) (f : Fabric C K) (p : P) (n : N)
      → ((store backend psm index f p).0 ≡ ok tt
          → load backend psm index (store backend psm index f p).1 n ≡ reread f n)
        × ((j : ℕ)
            → index ≢ j
            → load backend psm j (store backend psm index f p).1 n ≡ load backend psm j p n)
  load-store index f p n = (load-store_same index f p n, λ j. load-store_other index j f p n)
