-- ===== src/Fabric/Tests.antt =====
-- A fabric, kept in a store that is a function of its keys.
use matter_rs.Base.{
  ℕ, ◌+◌, ◌≡◌, refl, ap, arith, true, if◌then◌else◌, List, [], ◌∷◌, replicate, some, none, Result,
  ok, err, not_found, invalid,
}
use matter_rs.Fabric.{
  Item, rca, ica, noc_, ipk_, pubkey, privkey, item_eq, key_eq, Psm, Backend, Fabric, store, load,
}
use matter_rs.Fabric.Store.{reread, load-store}
use matter_rs.Fabric.Manager.{FabricMgr}

abbrev Files : Type 0
Files = ℕ → Item → Result (List ℕ)

item_eq_self : (a : Item) → item_eq a a ≡ true
item_eq_self rca = refl
item_eq_self ica = refl
item_eq_self noc_ = refl
item_eq_self ipk_ = refl
item_eq_self pubkey = refl
item_eq_self privkey = refl

key_eq_self : (i : ℕ) (a : Item) → key_eq i a i a ≡ true
key_eq_self i a = rw (item_eq_self a) (ground arith)

abbrev with_file : ℕ → Item → List ℕ → Files → Files
with_file i a v p j b = if key_eq j b i a then ok v else p j b

abbrev files : Psm Files
files = record {
  set_kv_slice = λ i a v p. (ok tt, with_file i a v p);
  get_kv_slice = λ i a p. p i a;
  get-set_self = λ i a v p h. ap (λ t. if t then ok v else p i a) (key_eq_self i a);
  get-set_other = λ i j a b v p h. ap (λ t. if t then ok v else p j b) h;
}

abbrev no_files : Files
no_files i a = err not_found

-- A key pair of two bytes.
abbrev key_pair_of : List ℕ → List ℕ → Result (ℕ × ℕ)
key_pair_of (a ∷ []) (b ∷ []) = ok (a, b)
key_pair_of _ _ = err invalid

-- A certificate is one byte, written behind its length, and the services that are published are listed.
abbrev cert_of : List ℕ → Result ℕ
cert_of (l ∷ c ∷ []) = ok c
cert_of _ = err invalid

abbrev backend : Backend ℕ (ℕ × ℕ) (List ℕ)
backend = record {
  get_node_id = λ c. ok (c + 7);
  get_fabric_id = λ c. ok (c + 1);
  get_pubkey = λ c. 4 ∷ c ∷ [];
  as_tlv = λ n c. ok (1 ∷ c ∷ []);
  new_cert = cert_of;
  get_public_key = λ k. ok (k.0 ∷ []);
  get_private_key = λ k. ok (k.1 ∷ []);
  new_from_components = key_pair_of;
  le_u64 = λ n. n ∷ replicate 7 0;
  be_u64 = λ n. n ∷ replicate 7 0;
  hkdf_sha256 = λ salt ikm info n. ok (replicate n 5);
  hmac_sha256 = λ key message. ok message;
  publish = λ id node services. (ok tt, node ∷ services);
}

abbrev made : Fabric ℕ (ℕ × ℕ)
made = record {
  node_id = 19;
  fabric_id = 13;
  key_pair = (2, 3);
  root_ca = 10;
  icac = 11;
  noc = 12;
  ipk = record { epoch_key = replicate 16 9; op_key = replicate 16 5 };
  compressed_id = replicate 8 5;
}

load-store_example :
    load backend files 1 (store backend files 1 made no_files).1 [] ≡ reread backend files made []
unfolding store
load-store_example = (load-store backend files 1 made no_files []).0 refl

abbrev empty_table : FabricMgr ℕ (ℕ × ℕ) Files
empty_table = record { fabrics = some made ∷ none ∷ none ∷ []; psm = no_files }

-- The fabric that was made, stored and loaded is the same, and its service is published.
load_again : load backend files 1 (store backend files 1 made no_files).1 [] ≡ (ok made, 19 ∷ [])
unfolding store load
load_again = refl
