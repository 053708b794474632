-- ===== src/Transport/Session/Table.antt =====
-- matter/src/transport/session.rs: the array of sessions, and what is looked up in it.
use matter_rs.Base.{
  ℕ, ◌+◌, Bool, false, ◌&&◌, not, ◌==◌, opt_eq, is_none, is_some, ltb, if◌then◌else◌, List, [], ◌∷◌,
  replicate, Option, some, none,
}
use matter_rs.Base.Search.{position}
use matter_rs.Transport.Packet.{Address}
use matter_rs.Transport.Session.{Session, is_encrypted}

abbrev pub max_sessions : ℕ
max_sessions = 16

abbrev pub Sessions : Type 0
Sessions = List (Option Session)

abbrev pub no_sessions : Sessions
no_sessions = replicate max_sessions none

unfoldable pub get_empty_slot : Sessions → Option ℕ
unfolding position
get_empty_slot sessions = position is_none sessions

abbrev pub has_id : ℕ → Option Session → Bool
has_id sess_id none = false
has_id sess_id (some s) = s.local_sess_id == sess_id

-- The index of `get_with_id`.
unfoldable pub index_with_id : ℕ → Sessions → Option ℕ
unfolding position
index_with_id sess_id sessions = position (has_id sess_id) sessions

-- Two node ids that are both known differ.
abbrev pub nodeids_differ : Option ℕ → Option ℕ → Bool
nodeids_differ a b = is_some a && is_some b && not (opt_eq a b)

abbrev pub is_for : ℕ → Address → Option ℕ → Bool → Option Session → Bool
is_for sess_id peer_addr peer_nodeid encrypted none = false
is_for sess_id peer_addr peer_nodeid encrypted (some x) =
    x.local_sess_id == sess_id
    && x.peer_addr == peer_addr
    && (if encrypted then is_encrypted x else not (is_encrypted x))
    && not (nodeids_differ x.peer_nodeid peer_nodeid)

-- `_get`.
unfoldable pub get : ℕ → Address → Option ℕ → Bool → Sessions → Option ℕ
unfolding position is_encrypted
get sess_id peer_addr peer_nodeid encrypted sessions =
    position (is_for sess_id peer_addr peer_nodeid encrypted) sessions

-- The loop of `get_lru` from the index `i` on, with the least index and time so far.
unfoldable pub lru_from : ℕ → ℕ → ℕ → Sessions → ℕ
lru_from i lru_index lru_ts [] = lru_index
lru_from i lru_index lru_ts (none ∷ xs) = lru_from (i + 1) lru_index lru_ts xs
lru_from i lru_index lru_ts (some s ∷ xs) =
    lru_from (i + 1) (if ltb s.last_use lru_ts then i else lru_index)
      (if ltb s.last_use lru_ts then s.last_use else lru_ts) xs

unfoldable pub get_lru : ℕ → Sessions → ℕ
unfolding lru_from
get_lru now sessions = lru_from 0 0 now sessions
