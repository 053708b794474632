-- ===== src/Transport/Exchange/Manager/OtherSessions.antt =====
-- matter/src/transport/exchange.rs, session.rs: a call on one session leaves the others alone.
use matter_rs.Base.{
  ℕ, ◌≡◌, ◌≢◌, refl, sym, ◌∙◌, Bool, true, false, get_elem?, set, get_elem?-set_self,
  get_elem?-set_ne, lt_of_get_elem?, Option, some, none, Result, ok, err, panic, Option-cases, inl,
  inr,
}
use matter_rs.Base.Exec.{Exec}
use matter_rs.Base.Bytes.{LittleEndian}
use matter_rs.Base.Flags.{Bitflags}
use matter_rs.Transport.Crypto.{Aead}
use matter_rs.Transport.Packet.{Packet}
use matter_rs.Transport.Session.{Session}
use matter_rs.Transport.Session
use matter_rs.Transport.Session.Table.{Sessions}
use matter_rs.Transport.Session.Manager.{SessionMgr, remove}
use matter_rs.Transport.Session.Manager as SessionMgr
use matter_rs.Transport.Exchange.{on_session}

-- The tables agree but for one index.
abbrev pub SameBut : ℕ → Sessions → Sessions → Type 0
SameBut index a b = (j : ℕ) → j ≢ index → get_elem? a j ≡ get_elem? b j

pub remove_lem :
    (index : ℕ) (m : SessionMgr)
    → (remove index m).0 ≡ ok tt
    → (get_elem? (remove index m).1.sessions index ≡ some none)
      × SameBut index (remove index m).1.sessions m.sessions
unfolding remove
remove_lem index m done = elim (Option-cases (get_elem? m.sessions index)) [
  | inl e ↦ cc (panics e)
  | inr (s, e) ↦ (
    rw (e, remove)
        (get_elem?-set_self m.sessions index none (lt_of_get_elem? m.sessions index s e)),
    λ j ne. rw (e, remove) (get_elem?-set_ne m.sessions index j none (λ same. ne (sym same))),
  )
]
  where
    panics : get_elem? m.sessions index ≡ none → (remove index m).0 ≡ panic
    panics e = rw (e, remove) refl

-- The sessions of a manager beside those before, but for one index.
abbrev pub Kept : ℕ → Sessions → SessionMgr × Packet → Type 0
Kept index before (m, p) = SameBut index m.sessions before

set_kept :
    (index : ℕ) (m : SessionMgr) (s : Option Session) (before : Sessions)
    → SameBut index m.sessions before
    → SameBut index (set m.sessions index s) before
set_kept index m s before h j ne =
    get_elem?-set_ne m.sessions index j s (λ same. ne (sym same)) ∙ h j ne

-- A call on the handle of a session changes no other session.
pub on_session-Kept :
    (index : ℕ) (f : Exec (Session × Packet) (Unit {0})) (before : Sessions)
    (s : SessionMgr × Packet)
    → Kept index before s
    → Kept index before (on_session index f s).1
unfolding on_session
on_session-Kept index f before (m, p) h = by_slot _ refl
  where
    by_slot :
        (o : Option (Option Session))
        → get_elem? m.sessions index ≡ o
        → Kept index before (on_session index f (m, p)).1
    by_slot none e = rw (e, on_session) h
    by_slot (some none) e = rw (e, on_session) h
    by_slot (some (some s)) e = rw (e, on_session) (set_kept index m _ before h)

module _ ⦃le : LittleEndian⦄ ⦃bf : Bitflags⦄ where
  pub send-Kept :
      (aead : Aead) (now index : ℕ) (sent : Result (Unit {0})) (before : Sessions)
      (s : SessionMgr × Packet)
      → Kept index before s
      → Kept index before (SessionMgr.send aead now index sent s).1
  unfolding SessionMgr.send
  send-Kept aead now index sent before (m, p) h = by_slot _ refl
    where
      by_result :
          (s : Session) (r : Result (Unit {0})) (net : Bool)
          → get_elem? m.sessions index ≡ some (some s)
          → (Session.do_send aead now (s, p)).0 ≡ r
          → m.network ≡ net
          → Kept index before (SessionMgr.send aead now index sent (m, p)).1
      by_result s (ok a) true e d n =
          rw (e, SessionMgr.send) (rw (d, n) (set_kept index m _ before h))
      by_result s (ok a) false e d n =
          rw (e, SessionMgr.send) (rw (d, n) (set_kept index m _ before h))
      by_result s (err x) net e d n = rw (e, SessionMgr.send) (rw d (set_kept index m _ before h))
      by_result s panic net e d n = rw (e, SessionMgr.send) (rw d (set_kept index m _ before h))

      by_slot :
          (o : Option (Option Session))
          → get_elem? m.sessions index ≡ o
          → Kept index before (SessionMgr.send aead now index sent (m, p)).1
      by_slot none e = rw (e, SessionMgr.send) h
      by_slot (some none) e = rw (e, SessionMgr.send) h
      by_slot (some (some s)) e = by_result s _ _ e refl refl
