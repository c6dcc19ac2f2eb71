-- ===== src/Server/Sessions/Good.antt =====
-- The invariant of the sessions, and the operations that leave tokens where they are.
use deepspace_outpost_dx.Base.{ℕ, ◌≡◌, refl, sym, subst, ◌∙◌, ◌≢◌, true, arith}
use deepspace_outpost_dx.Server.Table.{Table, put_session}
use deepspace_outpost_dx.Server.Table.Laws.{held, IsSound, IsSound-put}
use deepspace_outpost_dx.Server.Table.Every.{Every, Every-insert, Every-session_or, session_or-held}
use deepspace_outpost_dx.Server.Sessions.{
  Session, new_session, is_live, Sessions, at_key, write_session,
}

abbrev pub token_of : Session → ℕ
token_of s = s.token

-- A session is live exactly when it has a token, and one that waits for its commander has none.
pub record IsFit (s : Session) : Type 0 where
  pub live_known : is_live s ≡ true → s.token ≢ 0
  pub known_live : s.token ≢ 0 → is_live s ≡ true
  pub parked : s.loading ≡ true → s.token ≡ 0

pub record IsGood (st : Sessions) : Type 0 where
  pub sound : IsSound token_of st.table
  pub fit : Every IsFit st.table.sessions

-- What tells sessions apart, as far as the invariant reads it.
pub record IsLike (s t : Session) : Type 0 where
  pub token : s.token ≡ t.token
  pub entity : s.entity.index ≡ t.entity.index
  pub loading : s.loading ≡ t.loading

pub IsLike-IsFit : (s t : Session) → IsLike s t → IsFit t → IsFit s
unfolding is_live
IsLike-IsFit s t l f = record {
  live_known = λ e. ground (arith, l.token, l.entity, f.live_known);
  known_live = λ e. ground (arith, l.token, l.entity, f.known_live);
  parked = λ e. ground (arith, l.token, l.loading, f.parked);
}

pub new_session-IsFit : IsFit new_session
unfolding is_live
new_session-IsFit = record {
  live_known = λ e. cc;
  known_live = λ e. absurd (e refl);
  parked = λ e. refl;
}

pub at_key-IsFit : (k : ℕ) (st : Sessions) → IsGood st → IsFit (at_key k st)
at_key-IsFit k st g = Every-session_or IsFit new_session k st.table new_session-IsFit g.fit

pub at_key-held : (k : ℕ) (st : Sessions) → (at_key k st).token ≡ held token_of k st.table.sessions
at_key-held k st = session_or-held token_of new_session k st.table refl

-- Writing back a session like the one that stands there.
pub write_session-IsGood :
    (k : ℕ) (s : Session) (st : Sessions)
    → IsGood st
    → IsLike s (at_key k st)
    → IsGood (write_session k s st)
write_session-IsGood k s st g l = record {
  sound = IsSound-put token_of k s st.table g.sound (l.token ∙ at_key-held k st);
  fit =
      unfold put_session in
      (Every-insert IsFit k s st.table.sessions
        (IsLike-IsFit s (at_key k st) l (at_key-IsFit k st g)) g.fit);
}

pub same_table : (st st' : Sessions) → st'.table ≡ st.table → IsGood st → IsGood st'
same_table st st' e g = record {
  sound = subst (IsSound token_of) (sym e) g.sound;
  fit = subst (λ (t : Table Session). Every IsFit t.sessions) (sym e) g.fit;
}

pub IsLike-trans : (s t u : Session) → IsLike s t → IsLike t u → IsLike s u
IsLike-trans s t u l m = record {
  token = l.token ∙ m.token;
  entity = l.entity ∙ m.entity;
  loading = l.loading ∙ m.loading;
}
