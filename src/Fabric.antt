-- ===== src/Fabric.antt =====
-- matter/src/fabric.rs and group_keys.rs: a fabric, how it is kept in the persistent store, and how it
-- is told by a destination id. Certificates, keys, HKDF and HMAC (matter/src/cert, matter/src/crypto),
-- the publishing of the service (mdns.rs) and the store (sys/posix.rs) are interfaces.
pub mod Manager
pub mod Store
mod Tests
use matter_rs.Base.{
  ℕ, ◌+◌, ◌≡◌, ◌==◌, Bool, true, false, ◌&&◌, if◌then◌else◌, List, [], ◌∷◌, ◌++◌, length, Option,
  some, none, Result, ok, err, panic, and_then, Error, no_space, not_found,
}
use matter_rs.Base.Exec.{Exec, lift, ◌>>=◌, ◌>>◌}

abbrev pub max_cert_tlv_len : ℕ
max_cert_tlv_len = 300

abbrev pub symm_key_len_bytes : ℕ
symm_key_len_bytes = 16

abbrev pub compressed_fabric_id_len : ℕ
compressed_fabric_id_len = 8

-- What the keys of the store end in.
pub data Item : Type 0 where
  rca ica noc_ ipk_ pubkey privkey : Item

abbrev pub item_eq : Item → Item → Bool
item_eq rca rca = true
item_eq ica ica = true
item_eq noc_ noc_ = true
item_eq ipk_ ipk_ = true
item_eq pubkey pubkey = true
item_eq privkey privkey = true
item_eq _ _ = false

-- The key `fb{index}{item}`: no two pairs of an index of one digit and an item have the same.
abbrev pub key_eq : ℕ → Item → ℕ → Item → Bool
key_eq i a j b = item_eq a b && i == j

-- The files of the persistent store, one for each key, as std::fs documents them: `set_kv_slice` creates
-- and writes one, `get_kv_slice` opens and reads one.
pub record Psm (P : Type 0) : Type 0 where
  pub set_kv_slice : ℕ → Item → List ℕ → Exec P (Unit {0})
  pub get_kv_slice : ℕ → Item → P → Result (List ℕ)
  pub get-set_self :
      (i : ℕ) (a : Item) (v : List ℕ) (p : P)
      → (set_kv_slice i a v p).0 ≡ ok tt
      → get_kv_slice i a (set_kv_slice i a v p).1 ≡ ok v
  pub get-set_other :
      (i j : ℕ) (a b : Item) (v : List ℕ) (p : P)
      → key_eq j b i a ≡ false
      → get_kv_slice j b (set_kv_slice i a v p).1 ≡ get_kv_slice j b p

-- What the fabrics call of other parts: certificates `C` and key pairs `K`, numbers in bytes, the
-- functions of the crypto back end, by the length of what they fill, and the publishing of the service,
-- whose state is `N`. Nothing is assumed of them.
pub record Backend (C K N : Type 0) : Type 0 where
  pub get_node_id : C → Result ℕ
  pub get_fabric_id : C → Result ℕ
  pub get_pubkey : C → List ℕ
  pub as_tlv : ℕ → C → Result (List ℕ)
  pub new_cert : List ℕ → Result C
  pub get_public_key : K → Result (List ℕ)
  pub get_private_key : K → Result (List ℕ)
  pub new_from_components : List ℕ → List ℕ → Result K
  pub le_u64 : ℕ → List ℕ
  pub be_u64 : ℕ → List ℕ
  pub hkdf_sha256 : List ℕ → List ℕ → List ℕ → ℕ → Result (List ℕ)
  pub hmac_sha256 : List ℕ → List ℕ → Result (List ℕ)
  pub publish : List ℕ → ℕ → Exec N (Unit {0})

pub record KeySet : Type 0 where
  pub epoch_key : List ℕ
  pub op_key : List ℕ

module _ (C K : Type 0) where
  pub record Fabric : Type 0 where
    pub node_id : ℕ
    pub fabric_id : ℕ
    pub key_pair : K
    pub root_ca : C
    pub icac : C
    pub noc : C
    pub ipk : KeySet
    pub compressed_id : List ℕ

-- "GroupKey v1.0".
abbrev pub grp_key_info : List ℕ
grp_key_info =
    0x47 ∷ 0x72 ∷ 0x6f ∷ 0x75 ∷ 0x70 ∷ 0x4b ∷ 0x65 ∷ 0x79 ∷ 0x20 ∷ 0x76 ∷ 0x31 ∷ 0x2e ∷ 0x30 ∷ []

-- "CompressedFabric".
abbrev compressed_fabric_id_info : List ℕ
compressed_fabric_id_info =
    0x43 ∷ 0x6f ∷ 0x6d ∷ 0x70 ∷ 0x72 ∷ 0x65 ∷ 0x73 ∷ 0x73 ∷ 0x65 ∷ 0x64 ∷ 0x46 ∷ 0x61 ∷ 0x62 ∷ 0x72
    ∷ 0x69 ∷ 0x63 ∷ []

-- `map_err(|_| Error::NoSpace)`.
abbrev pub or_no_space {ℓ} : {A : Type ℓ} → Result A → Result A
or_no_space (ok a) = ok a
or_no_space (err e) = err no_space
or_no_space panic = panic

-- `==` on slices.
unfoldable pub bytes_eq : List ℕ → List ℕ → Bool
bytes_eq [] [] = true
bytes_eq [] (y ∷ ys) = false
bytes_eq (x ∷ xs) [] = false
bytes_eq (x ∷ xs) (y ∷ ys) = x == y && bytes_eq xs ys

module _ {C K N : Type 0} (backend : Backend C K N) where
  open backend use {
    get_node_id, get_fabric_id, get_pubkey, as_tlv, new_cert, get_public_key, get_private_key,
    new_from_components, le_u64, be_u64, hkdf_sha256, hmac_sha256, publish,
  }

  -- `KeySet::new`; `copy_from_slice` panics at another length.
  unfoldable pub new_key_set : List ℕ → List ℕ → Result KeySet
  new_key_set epoch_key compressed_id =
      and_then (or_no_space (hkdf_sha256 compressed_id epoch_key grp_key_info symm_key_len_bytes))
        (λ op_key.
          if length epoch_key == symm_key_len_bytes
          then ok (record { epoch_key = epoch_key; op_key = op_key })
          else panic)

  -- Without the byte that stands before the coordinates: a slice from 1 on panics on nothing.
  unfoldable pub get_compressed_id : List ℕ → ℕ → Result (List ℕ)
  get_compressed_id [] fabric_id = panic
  get_compressed_id (b ∷ root_pubkey) fabric_id = or_no_space (
      hkdf_sha256 (be_u64 fabric_id) root_pubkey compressed_fabric_id_info compressed_fabric_id_len)

  unfoldable pub new : K → C → C → C → List ℕ → Exec N (Fabric C K)
  unfolding new_key_set get_compressed_id ◌>>=◌
  new key_pair root_ca icac noc ipk = do
    node_id ← lift (get_node_id noc)
    fabric_id ← lift (get_fabric_id noc)
    compressed_id ← lift (get_compressed_id (get_pubkey root_ca) fabric_id)
    keys ← lift (new_key_set ipk compressed_id)
    publish compressed_id node_id
    lift (
        ok (record {
          node_id = node_id;
          fabric_id = fabric_id;
          key_pair = key_pair;
          root_ca = root_ca;
          icac = icac;
          noc = noc;
          ipk = keys;
          compressed_id = compressed_id;
        }))

  unfoldable pub match_dest_id : List ℕ → List ℕ → Fabric C K → Result (Unit {0})
  unfolding bytes_eq
  match_dest_id random target f =
      and_then
        (hmac_sha256 f.ipk.op_key
          (random ++ get_pubkey f.root_ca ++ le_u64 f.fabric_id ++ le_u64 f.node_id))
        (λ id. if bytes_eq id target then ok tt else err not_found)

  module _ {P : Type 0} (psm : Psm P) where
    -- One value of a fabric under its key.
    unfoldable pub store_item : ℕ → Item → Result (List ℕ) → Exec P (Unit {0})
    unfolding ◌>>=◌
    store_item index item r = lift r >>= psm.set_kv_slice index item

    -- One value after the other.
    unfoldable pub store_items : ℕ → List (Item × Result (List ℕ)) → Exec P (Unit {0})
    unfolding store_item
    store_items index [] p = (ok tt, p)
    store_items index ((item, r) ∷ items) p = (store_item index item r >> store_items index items) p

    -- What `store` writes, in its order.
    abbrev pub items : Fabric C K → List (Item × Result (List ℕ))
    items f =
        (rca, as_tlv max_cert_tlv_len f.root_ca)
        ∷ (ica, as_tlv max_cert_tlv_len f.icac)
        ∷ (noc_, as_tlv max_cert_tlv_len f.noc)
        ∷ (ipk_, ok f.ipk.epoch_key)
        ∷ (pubkey, get_public_key f.key_pair)
        ∷ (privkey, get_private_key f.key_pair)
        ∷ []

    unfoldable pub store : ℕ → Fabric C K → Exec P (Unit {0})
    unfolding store_items
    store index f = store_items index (items f)

    abbrev pub load_cert : ℕ → Item → P → Result C
    load_cert index item p = and_then (psm.get_kv_slice index item p) new_cert

    unfoldable pub load : ℕ → P → Exec N (Fabric C K)
    unfolding new ◌>>=◌
    load index p = do
      root_ca ← lift (load_cert index rca p)
      icac ← lift (load_cert index ica p)
      noc ← lift (load_cert index noc_ p)
      ipk ← lift (psm.get_kv_slice index ipk_ p)
      pub_key ← lift (psm.get_kv_slice index pubkey p)
      priv_key ← lift (psm.get_kv_slice index privkey p)
      key_pair ← lift (new_from_components pub_key priv_key)
      new key_pair root_ca icac noc ipk
