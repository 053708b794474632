-- ===== src/Transport/Session/Ids.antt =====
-- matter/src/transport/session.rs: `get_next_sess_id`, whose loop ends since every try that fails meets
-- another session.
use matter_rs.Base.{
  ℕ, zero, suc, ◌+◌, ◌-◌, ◌%◌, ◌≤◌, ◌<◌, ◌≡◌, refl, ap, ◌∙◌, subst, Bool, true, false, ◌==◌,
  if◌then◌else◌, length, get_elem?, Option, some, none, Option-cases, ltb, ==_iff, Result, inl, inr,
  ok, arith,
}
use matter_rs.Base.Search.{
  position_found, position_missing, count, count-add, count-le-length, count_pos,
}
use matter_rs.Transport.Session.{Session}
use matter_rs.Transport.Session.Table.{Sessions, has_id, index_with_id}
use matter_rs.Transport.Session.Manager.{
  SessionMgr, following, bumped, find_sess_id, get_next_sess_id,
}

-- How many steps after the id `n` the id `u` comes.
abbrev offset : ℕ → ℕ → ℕ
offset n u = (u + 65535 - n) % 65535

-- The id after `k` steps from `n`.
abbrev id_at : ℕ → ℕ → ℕ
id_at n k = (n - 1 + k) % 65535 + 1

following-id_at : (n k : ℕ) → 1 ≤ n → following (id_at n k) ≡ id_at n (k + 1)
following-id_at n k h = ground arith

offset-id_at : (n k : ℕ) → 1 ≤ n → n < 65536 → k < 65535 → offset n (id_at n k) ≡ k
offset-id_at n k h l m = omega arith

-- Sessions with an id among the first `k` from `n` on, and those with the id after `k` steps.
abbrev among : ℕ → ℕ → Option Session → Bool
among n k none = false
among n k (some s) = ltb (offset n s.local_sess_id) k

abbrev exactly : ℕ → ℕ → Option Session → Bool
exactly n k none = false
exactly n k (some s) = offset n s.local_sess_id == k

among_next :
    (n k : ℕ) (o : Option Session)
    → (if among n (k + 1) o then 1 else 0)
      ≡ (if among n k o then 1 else 0) + (if exactly n k o then 1 else 0)
among_next n k none = omega arith
among_next n k (some s) = ground arith

-- A try that fails counts one session more.
count-among :
    (n k : ℕ) (sessions : Sessions) (i : ℕ)
    → 1 ≤ n
    → n < 65536
    → k < 65535
    → index_with_id (id_at n k) sessions ≡ some i
    → k ≤ count (among n k) sessions
    → k + 1 ≤ count (among n (k + 1)) sessions
unfolding index_with_id
count-among n k sessions i h l m e before =
    let (o, here, mine) = position_found (has_id (id_at n k)) sessions i e in
    omega (
      arith,
      count-add (among n k) (exactly n k) (among n (k + 1)) sessions (among_next n k),
      count_pos (exactly n k) sessions i o here (is_exactly o mine),
    )
  where
    is_exactly : (o : Option Session) → has_id (id_at n k) o ≡ true → exactly n k o ≡ true
    is_exactly none q = cc
    is_exactly (some s) q =
        let a : s.local_sess_id ≡ id_at n k = (==_iff _ _).0 q in
        let b : offset n s.local_sess_id ≡ k = ap (offset n) a ∙ offset-id_at n k h l m in
        (==_iff _ _).1 b

-- What the loop gives.
abbrev Found : SessionMgr → Result ℕ × SessionMgr → Type 0
Found m r =
    (id : ℕ) × (r.0 ≡ ok id)
    × (1 ≤ id)
    × (id < 65536)
    × (index_with_id id m.sessions ≡ none)
    × (r.1.sessions ≡ m.sessions)
    × (1 ≤ r.1.next_sess_id)
    × (r.1.next_sess_id < 65536)

following_pos : (n : ℕ) → 1 ≤ following n
following_pos n = ground arith

following_lt : (n : ℕ) → following n < 65536
following_lt n = ground arith

find_sess_id-Found :
    (fuel n k : ℕ) (m : SessionMgr)
    → 1 ≤ n
    → n < 65536
    → m.next_sess_id ≡ id_at n k
    → k ≤ count (among n k) m.sessions
    → length m.sessions < k + fuel
    → length m.sessions < 65535
    → Found m (find_sess_id fuel m)
unfolding find_sess_id
find_sess_id-Found zero n k m h l e c f b =
    absurd (omega (arith, count-le-length (among n k) m.sessions))
find_sess_id-Found (suc fuel) n k m h l e c f b =
    let few = count-le-length (among n k) m.sessions in
    elim (Option-cases (index_with_id m.next_sess_id m.sessions)) [
      | inl free ↦ rw free (
        m.next_sess_id,
        refl,
        omega (arith, e),
        omega (arith, e),
        free,
        refl,
        following_pos m.next_sess_id,
        following_lt m.next_sess_id,
      )
      | inr (i, taken) ↦
          let here : index_with_id (id_at n k) m.sessions ≡ some i =
            subst (λ x. index_with_id x m.sessions ≡ some i) e taken in
          rw taken (
            find_sess_id-Found fuel n (k + 1) (bumped m) h l
              (ap following e ∙ following-id_at n k h)
              (count-among n k m.sessions i h l (omega arith) here c) (omega arith) b)
    ]

-- No session has the id.
abbrev pub IsUnused : ℕ → Sessions → Type 0
IsUnused id sessions =
    ¬ ((i : ℕ) × (s : Session) × (get_elem? sessions i ≡ some (some s)) × (s.local_sess_id ≡ id))

missing-IsUnused :
    (id : ℕ) (sessions : Sessions) → index_with_id id sessions ≡ none → IsUnused id sessions
unfolding index_with_id
missing-IsUnused id sessions e (i, s, here, same) =
    let no = position_missing (has_id id) sessions i (some s) e here in
    let yes' : has_id id (some s) ≡ true = (==_iff _ _).1 same in cc

-- On a table of less than 65535 sessions, from any next id of 16 bits but 0, the loop ends: the id is
-- not 0, no session has it, the sessions stay, and the next id is again one of 16 bits but 0.
pub get_next_sess_id_lem :
    (m : SessionMgr)
    → 1 ≤ m.next_sess_id
    → m.next_sess_id < 65536
    → length m.sessions < 65535
    → (id : ℕ) × ((get_next_sess_id m).0 ≡ ok id)
      × (1 ≤ id)
      × (id < 65536)
      × IsUnused id m.sessions
      × ((get_next_sess_id m).1.sessions ≡ m.sessions)
      × (1 ≤ (get_next_sess_id m).1.next_sess_id)
      × ((get_next_sess_id m).1.next_sess_id < 65536)
unfolding get_next_sess_id
get_next_sess_id_lem m h l b =
    let (id, got, pos, small, free, same, pos', small') =
      find_sess_id-Found (suc (length m.sessions)) m.next_sess_id 0 m h l (omega arith)
        (omega arith) (omega arith) b in
    (id, got, pos, small, missing-IsUnused id m.sessions free, same, pos', small')
