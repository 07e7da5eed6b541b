-- ===== src/Crawler/SessionStore/Freshness.antt =====
-- src/AgentCrawler/src/agent_crawler/session/session_store.py: `get` hands out no stale session.
use sth_boring.Base.{
  ℕ, ◌≤◌, List, [], ◌∷◌, Option, none, some, true, false, ◌≡◌, refl, arith, eq_refl, Bool-cases,
  inl, inr,
}
use sth_boring.Crawler.Enums.{TransportKind, same_transport}
use sth_boring.Crawler.SessionStore.{
  CrawlSession, SessionKey, SessionStore, same_key, find, store, is_stale, new_session, pick, get,
}

same_transport_refl : (t : TransportKind) → same_transport t t ≡ true
same_transport_refl TransportKind.http = refl
same_transport_refl TransportKind.browser = refl

same_key_refl : (k : SessionKey) → same_key k k ≡ true
same_key_refl k =
    rw (eq_refl k.domain, eq_refl k.auth_profile_id, same_transport_refl k.transport) refl

find-store :
    (key : SessionKey) (s : CrawlSession) (sessions : List (SessionKey × CrawlSession))
    → find key (store key s sessions) ≡ some s
unfolding find store
find-store key s [] = rw (same_key_refl key) refl
find-store key s ((k, x) ∷ sessions) = elim (Bool-cases (same_key k key)) [
  | inl e ↦ rw (e, e) refl
  | inr e ↦ rw (e, e) (find-store key s sessions)
]

pick-fresh :
    (now created ttl : ℕ) (key : SessionKey) (o : Option CrawlSession)
    → now ≤ created
    → is_stale now ttl (some (pick now created ttl key o)) ≡ false
unfolding pick new_session
pick-fresh now created ttl key none later = ground arith
pick-fresh now created ttl key (some s) later = elim (Bool-cases (is_stale now ttl (some s))) [
  | inl e ↦ rw e (ground arith)
  | inr e ↦ rw e e
]

-- If the clock does not go back between its readings, the session that `get` hands out is not older
-- than the lifetime of the store allows, and it is the one that the store holds under the key from
-- then on.
pub get-fresh :
    (now created touched : ℕ) (key : SessionKey) (self : SessionStore)
    → now ≤ created
    → (is_stale now self.ttl (some (get now created touched key self).0) ≡ false)
      × (find key (get now created touched key self).1.sessions
          ≡ some (get now created touched key self).0)
unfolding get
get-fresh now created touched key self later =
    (pick-fresh now created self.ttl key (find key self.sessions) later, find-store key _ _)
