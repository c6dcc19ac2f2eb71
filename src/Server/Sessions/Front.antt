-- ===== src/Server/Sessions/Front.antt =====
-- A hello keeps the invariant of the sessions, whatever it asks for.
use deepspace_outpost_dx.Base.{
  ◌==◌, Bool-cases, Option-cases, lookup, lookup-insert, ℕ, ◌≡◌, refl, sym, ap, subst, ◌∙◌, ◌≢◌,
  ◌⊎◌, inl, inr, Bool, true, false, ◌||◌, none, List, arith,
}
use deepspace_outpost_dx.Ecs.Registry.{Registry}
use deepspace_outpost_dx.Messages.{Value}
use deepspace_outpost_dx.Messages.Defs.{Message}
use deepspace_outpost_dx.Messages.Defs.Player.{hello_ack, hello_reject}
use deepspace_outpost_dx.Server.{NetEndpoint, endpoint_key}
use deepspace_outpost_dx.Persist.Store.{same_name}
use deepspace_outpost_dx.Server.Table.{session_or, put_session}
use deepspace_outpost_dx.Server.Table.Laws.{IsSound-put}
use deepspace_outpost_dx.Server.Table.Every.{Every-insert}
use deepspace_outpost_dx.Server.Sessions.{Session, is_live, Sessions, moved, at_key, write_session}
use deepspace_outpost_dx.Server.Sessions.Name.{
  sanitize_name, unique_name, is_empty, apply_name_to, apply_name,
}
use deepspace_outpost_dx.Server.Sessions.Hello.{
  protocol_version, ClientHello, tell, protocol_mismatch, resume, Ship, on_hello,
}
use deepspace_outpost_dx.Server.Sessions.Good.{
  token_of, IsFit, IsGood, IsLike, at_key-IsFit, at_key-held, write_session-IsGood, IsLike-trans,
}
use deepspace_outpost_dx.Server.Sessions.Spawn.{IsFresh, next_token_same, HasRoom, accept-IsGood}

pub apply_name_to-IsLike :
    (s : Session) (k : ℕ) (raw : List ℕ) (es : List (ℕ × Session))
    → IsLike (apply_name_to s k raw es).1 s
unfolding apply_name_to
apply_name_to-IsLike s k raw es =
    elim (Bool-cases
      (is_empty (sanitize_name raw) || same_name (unique_name (sanitize_name raw) k es) s.name)) [
        | inl same ↦
            rw (same, apply_name_to) (record { token = refl; entity = refl; loading = refl })
        | inr other ↦
            rw (other, apply_name_to) (record { token = refl; entity = refl; loading = refl })
      ]

pub apply_name-IsGood :
    (ep : NetEndpoint) (raw : List ℕ) (st : Sessions) → IsGood st → IsGood (apply_name ep raw st).1
unfolding apply_name
apply_name-IsGood ep raw st g = elim (Option-cases (lookup (endpoint_key ep) st.table.sessions)) [
  | inl missing ↦ rw (missing, apply_name) g
  | inr (s, here) ↦
      rw (here, apply_name)
        (write_session-IsGood (endpoint_key ep) _ st g (
          unfold session_or in
          rw (here, session_or) (apply_name_to-IsLike s (endpoint_key ep) raw st.table.sessions)))
]

tell-IsLike :
    (m : Message) (v : Value m.fields) (s t : Session) → IsLike s t → IsLike (tell m v s) t
unfolding tell
tell-IsLike m v s t l = record { token = l.token; entity = l.entity; loading = l.loading }

pub at_key-write : (k : ℕ) (s : Session) (st : Sessions) → at_key k (write_session k s st) ≡ s
unfolding put_session session_or
at_key-write k s st = ground (arith, lookup-insert k k s st.table.sessions)

-- A hello that finds a session which is not live leaves it without a token.
bare : (k : ℕ) (st : Sessions) → IsGood st → is_live (at_key k st) ≡ false → (at_key k st).token ≡ 0
bare k st g shell = ground (arith, (at_key-IsFit k st g).known_live)

parked-IsGood :
    (k : ℕ) (s : Session) (st : Sessions)
    → IsGood st
    → s.token ≡ (at_key k st).token
    → IsFit s
    → IsGood (write_session k s st)
parked-IsGood k s st g own fit = record {
  sound = IsSound-put token_of k s st.table g.sound (own ∙ at_key-held k st);
  fit = unfold put_session in (Every-insert IsFit k s st.table.sessions fit g.fit);
}

resume-IsGood :
    (k : ℕ) (s : Session) (raw : List ℕ) (st : Sessions)
    → IsGood st
    → IsLike s (at_key k st)
    → IsGood (resume k s raw st).1
resume-IsGood k s raw st g l = write_session-IsGood k _ st g (
    tell-IsLike hello_ack _ _ _
      (IsLike-trans _ _ _ (apply_name_to-IsLike s k raw st.table.sessions) l))

is_live-moved : (ep : NetEndpoint) (tick : ℕ) (s : Session) → is_live (moved ep tick s) ≡ is_live s
unfolding is_live
is_live-moved ep tick s = refl

-- A session that is parked: it waits, and has neither an entity nor a token.
park-IsFit :
    (s : Session) (raw : List ℕ)
    → is_live s ≡ false
    → s.token ≡ 0
    → IsFit (record s { loading = true; name = sanitize_name raw })
unfolding is_live
park-IsFit s raw shell own = record {
  live_known = λ e. ground (arith, shell);
  known_live = λ e. absurd (e own);
  parked = λ e. own;
}

IsFresh-write :
    (drawn k : ℕ) (s : Session) (st : Sessions)
    → IsFresh drawn st
    → IsFresh drawn (write_session k s st)
unfolding put_session
IsFresh-write drawn k s st f =
    let same = next_token_same drawn st (write_session k s st) refl in
    record {
      real = subst (λ (n : ℕ). n ≢ 0) (sym same) f.real;
      unused = subst (λ (n : ℕ). lookup n st.table.by_token ≡ none) (sym same) f.unused;
    }

module _ {A : Type 0} (ship : Ship A) where
  -- A hello without a version check passed, on a live session, or that waits for the commander.
  pub on_hello-IsGood :
      (ep : NetEndpoint) (hello : ClientHello) (tick : ℕ) (defer_spawn : Bool) (drawn : ℕ)
      (st : Sessions) (world : Registry A)
      → IsGood st
      → IsFresh drawn st
      → HasRoom world
      → (defer_spawn ≡ true) ⊎ ((at_key (endpoint_key ep) st).loading ≡ false)
      → IsGood (on_hello ship ep hello tick defer_spawn drawn st world).1
  unfolding on_hello
  on_hello-IsGood ep hello tick defer_spawn drawn st world g f h mode =
      let k = endpoint_key ep in
      let s : Session = moved ep tick (at_key k st) in
      let here : Sessions = write_session k s st in
      let as_is : IsLike s (at_key k st) = record { token = refl; entity = refl; loading = refl } in
      let g' : IsGood here = write_session-IsGood k s st g as_is in
      let found = at_key-write k s st in
      elim (Bool-cases (hello.version == protocol_version)) [
        | inr old ↦
            rw (old, on_hello)
              (write_session-IsGood k _ st g (tell-IsLike hello_reject protocol_mismatch s _ as_is))
        | inl same ↦ elim (Bool-cases (is_live s)) [
          | inl live ↦
              rw (same, live, on_hello)
                (resume-IsGood k s hello.commander_name here g' (
                  subst (IsLike s) (sym (at_key-write k s st))
                    (record { token = refl; entity = refl; loading = refl })))
          | inr shell ↦ elim (Bool-cases defer_spawn) [
            | inl defer ↦
                rw (same, shell, defer, on_hello)
                  (parked-IsGood k _ st g refl (
                    park-IsFit s hello.commander_name shell
                      (bare k st g (sym (is_live-moved ep tick _) ∙ shell))))
            | inr now ↦
                rw (same, shell, now, on_hello)
                  (accept-IsGood ship k drawn (sanitize_name hello.commander_name) s here world g'
                    (IsFresh-write drawn k s st f)
                    (sym (at_key-held k here)
                      ∙ ap (λ (x : Session). x.token) found
                      ∙ bare k st g (sym (is_live-moved ep tick _) ∙ shell))
                    (ground (arith, mode, now)) h)
          ]
        ]
      ]
