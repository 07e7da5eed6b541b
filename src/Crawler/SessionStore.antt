-- ===== src/Crawler/SessionStore.antt =====
-- src/AgentCrawler/src/agent_crawler/session: the sessions, by domain, profile and transport. Clock
-- readings and the lifetime are whole microseconds; a lifetime that is not positive is 0.
pub mod Freshness
use sth_boring.Base.{
  ℕ, ◌-◌, String, List, [], ◌∷◌, Option, none, some, Bool, true, false, ◌&&◌, ltb, if◌then◌else◌,
  ◌==◌,
}
use sth_boring.Base.Dict.{Dict}
use sth_boring.Json.{Fields, no_fields}
use sth_boring.Crawler.Enums.{TransportKind, same_transport}

pub record AuthProfile : Type 0 where
  pub profile_id : String
  pub secrets_refs : Dict String
  pub storage_state_path : Option String
  pub meta : Fields

pub record CrawlSession : Type 0 where
  pub domain : String
  pub auth_profile : AuthProfile
  pub transport : TransportKind
  pub created_at_epoch : ℕ
  pub last_used_epoch : ℕ
  pub state : Fields

pub record SessionKey : Type 0 where
  pub domain : String
  pub auth_profile_id : String
  pub transport : TransportKind

pub record SessionStore : Type 0 where
  pub ttl : ℕ
  pub sessions : List (SessionKey × CrawlSession)

abbrev pub same_key : SessionKey → SessionKey → Bool
same_key a b =
    a.domain == b.domain
    && a.auth_profile_id == b.auth_profile_id
    && same_transport a.transport b.transport

unfoldable pub find : SessionKey → List (SessionKey × CrawlSession) → Option CrawlSession
find key [] = none
find key ((k, s) ∷ sessions) =
    let rest = find key sessions in if same_key k key then some s else rest

-- `self._sessions[key] = session`
unfoldable pub store :
    SessionKey → CrawlSession → List (SessionKey × CrawlSession) → List (SessionKey × CrawlSession)
store key session [] = (key, session) ∷ []
store key session ((k, s) ∷ sessions) =
    let rest = store key session sessions in
    if same_key k key then (k, session) ∷ sessions else (k, s) ∷ rest

-- The key is one that `invalidate` removes.
abbrev is_addressed : String → Option String → Option TransportKind → SessionKey → Bool
is_addressed domain auth_profile_id transport key =
    key.domain == domain
    && (elim auth_profile_id [ none ↦ true | some id ↦ key.auth_profile_id == id ])
    && (elim transport [ none ↦ true | some kind ↦ same_transport key.transport kind ])

drop_addressed :
    String
    → Option String
    → Option TransportKind
    → List (SessionKey × CrawlSession)
    → List (SessionKey × CrawlSession)
drop_addressed domain profile transport [] = []
drop_addressed domain profile transport (e ∷ sessions) =
    let rest = drop_addressed domain profile transport sessions in
    if is_addressed domain profile transport e.0 then rest else e ∷ rest

unfoldable pub invalidate :
    String → Option String → Option TransportKind → SessionStore → SessionStore
unfolding drop_addressed
invalidate domain auth_profile_id transport store = record store {
  sessions = drop_addressed domain auth_profile_id transport store.sessions;
}

-- `session and self.ttl_s > 0 and now - session.created_at_epoch > self.ttl_s`
abbrev pub is_stale : ℕ → ℕ → Option CrawlSession → Bool
is_stale now ttl none = false
is_stale now ttl (some s) = ltb 0 ttl && ltb ttl (now - s.created_at_epoch)

new_session : ℕ → SessionKey → CrawlSession
new_session now key = record {
  domain = key.domain;
  auth_profile = record {
    profile_id = key.auth_profile_id;
    secrets_refs = [];
    storage_state_path = none;
    meta = no_fields;
  };
  transport = key.transport;
  created_at_epoch = now;
  last_used_epoch = now;
  state = no_fields;
}

-- The session that was found, unless there is none or it is stale.
pick : (now created ttl : ℕ) → SessionKey → Option CrawlSession → CrawlSession
unfolding new_session
pick now created ttl key none = new_session created key
pick now created ttl key (some s) = if is_stale now ttl (some s) then new_session created key else s

-- `get` reads the clock for the test, for a new session and for `touch`: at `now`, at `created` and
-- at `touched`.
unfoldable pub get : ℕ → ℕ → ℕ → SessionKey → SessionStore → CrawlSession × SessionStore
unfolding find store pick
get now created touched key self =
    let found = find key self.sessions in
    let self' =
      if is_stale now self.ttl found
      then invalidate key.domain (some key.auth_profile_id) (some key.transport) self
      else self in
    let session = pick now created self.ttl key found in
    let session' : CrawlSession = record session { last_used_epoch = touched } in
    (session', record self' { sessions = store key session' self'.sessions })
