-- ===== src/Server/Sessions/Reachable.antt =====
-- The sessions over the life of a server: any operations, in any order, between other changes to the
-- world.
use deepspace_outpost_dx.Base.{lookup, ℕ, ◌≡◌, refl, ◌⊎◌, inl, inr, Bool, true, false, List, arith}
use deepspace_outpost_dx.Ecs.Registry.{Registry}
use deepspace_outpost_dx.Server.{NetEndpoint, endpoint_key}
use deepspace_outpost_dx.Server.Table.Keyed.{IsKeyed}
use deepspace_outpost_dx.Server.Table.Laws.{held}
use deepspace_outpost_dx.Server.Sessions.{
  Sessions, no_sessions, at_key, InputCommand, on_input, on_reliable,
}
use deepspace_outpost_dx.Server.Sessions.Name.{apply_name}
use deepspace_outpost_dx.Server.Sessions.Hello.{ClientHello, Ship, on_hello, spawn_loaded}
use deepspace_outpost_dx.Server.Sessions.Reap.{reap}
use deepspace_outpost_dx.Server.Sessions.Good.{IsGood}
use deepspace_outpost_dx.Server.Sessions.Datagram.{on_input-IsGood, on_reliable-IsGood}
use deepspace_outpost_dx.Server.Sessions.Spawn.{IsFresh, HasRoom, spawn_loaded-IsGood}
use deepspace_outpost_dx.Server.Sessions.Front.{apply_name-IsGood, on_hello-IsGood}
use deepspace_outpost_dx.Server.Sessions.Sweep.{reap-IsGood}
use deepspace_outpost_dx.Server.Sessions.Awake.{
  IsAwake, at_key-IsAwake, on_input-IsAwake, on_reliable-IsAwake, apply_name-IsAwake,
  on_hello-IsAwake, spawn_loaded-IsAwake, reap-IsAwake,
}

-- `defer` is whether the server waits for commanders from its store; it stays so for its whole life.
module _ {A : Type 0} (ship : Ship A) (defer : Bool) where
  -- What may happen to the sessions. A token that is drawn is real and not in use, and there is a slot
  -- to spare for a new ship.
  pub data Step : Sessions → Sessions → Type 0 where
    an_input :
        {st : Sessions} (world : Registry A) (ep : NetEndpoint) (token : ℕ) (input : InputCommand)
        (tick : ℕ)
        → Step st (on_input world ep token input tick st).1
    a_datagram :
        {st : Sessions} (ep : NetEndpoint) (bytes : List ℕ) (tick : ℕ)
        → Step st (on_reliable ep bytes tick st)
    a_hello :
        {st : Sessions} (world : Registry A) (ep : NetEndpoint) (hello : ClientHello)
        (tick drawn : ℕ)
        → IsFresh drawn st
        → HasRoom world
        → Step st (on_hello ship ep hello tick defer drawn st world).1
    a_load :
        {st : Sessions} (world : Registry A) (ep : NetEndpoint) (tick drawn : ℕ)
        → IsFresh drawn st
        → HasRoom world
        → Step st (spawn_loaded ship ep tick drawn st world).1
    a_name : {st : Sessions} (ep : NetEndpoint) (raw : List ℕ) → Step st (apply_name ep raw st).1
    a_reap :
        {st : Sessions} (world : Registry A) (tick shell grace : ℕ)
        → Step st (reap tick shell grace world st).2

  pub data Reachable : Sessions → Type 0 where
    start : Reachable no_sessions
    next : (st st' : Sessions) → Reachable st → Step st st' → Reachable st'

-- A server that defers, or one where nobody waits.
HasMode : Bool → Sessions → Type 0
HasMode true st = Unit
HasMode false st = IsAwake st

mode_of :
    (defer : Bool) (ep : NetEndpoint) (st : Sessions)
    → HasMode defer st
    → (defer ≡ true) ⊎ ((at_key (endpoint_key ep) st).loading ≡ false)
unfolding HasMode
mode_of true ep st m = inl refl
mode_of false ep st m = inr (at_key-IsAwake (endpoint_key ep) st m)

module _ {A : Type 0} (ship : Ship A) where
  Step-HasMode :
      (defer : Bool) (st st' : Sessions)
      → Step ship defer st st'
      → IsGood st
      → HasMode defer st
      → HasMode defer st'
  unfolding HasMode
  Step-HasMode true st st' s g m = tt
  Step-HasMode false st st' (an_input world ep token input tick) g m =
      on_input-IsAwake world ep token input tick st g m
  Step-HasMode false st st' (a_datagram ep bytes tick) g m =
      on_reliable-IsAwake ep bytes tick st g m
  Step-HasMode false st st' (a_hello world ep hello tick drawn f h) g m =
      on_hello-IsAwake ship ep hello tick drawn st world m
  Step-HasMode false st st' (a_load world ep tick drawn f h) g m =
      spawn_loaded-IsAwake ship ep tick drawn st world m
  Step-HasMode false st st' (a_name ep raw) g m = apply_name-IsAwake ep raw st m
  Step-HasMode false st st' (a_reap world tick shell grace) g m =
      reap-IsAwake tick shell grace world st m

  Step-IsGood :
      (defer : Bool) (st st' : Sessions)
      → Step ship defer st st'
      → IsGood st
      → HasMode defer st
      → IsGood st'
  Step-IsGood defer st st' (an_input world ep token input tick) g m =
      on_input-IsGood world ep token input tick st g
  Step-IsGood defer st st' (a_datagram ep bytes tick) g m = on_reliable-IsGood ep bytes tick st g
  Step-IsGood defer st st' (a_hello world ep hello tick drawn f h) g m =
      on_hello-IsGood ship ep hello tick defer drawn st world g f h (mode_of defer ep st m)
  Step-IsGood defer st st' (a_load world ep tick drawn f h) g m =
      spawn_loaded-IsGood ship ep tick drawn st world g f h
  Step-IsGood defer st st' (a_name ep raw) g m = apply_name-IsGood ep raw st g
  Step-IsGood defer st st' (a_reap world tick shell grace) g m =
      reap-IsGood tick shell grace world st g

  no_sessions-HasMode : (defer : Bool) → HasMode defer no_sessions
  unfolding HasMode lookup
  no_sessions-HasMode true = tt
  no_sessions-HasMode false = λ k s e. absurd (ground (arith, e))

  Reachable-both :
      (defer : Bool) (st : Sessions) → Reachable ship defer st → IsGood st × HasMode defer st
  Reachable-both defer st start = (
    record {
      sound = record {
        forth = λ token k e. absurd (unfold lookup in ground (arith, e));
        keyed = unfold IsKeyed in tt;
        back = λ k h. absurd (h (unfold held lookup in refl));
      };
      fit = λ k s e. absurd (unfold lookup in ground (arith, e));
    },
    no_sessions-HasMode defer,
  )
  Reachable-both defer st (next st₀ st' r s) =
      let (g, m) = Reachable-both defer st₀ r in
      (Step-IsGood defer st₀ st' s g m, Step-HasMode defer st₀ st' s g m)

  -- On a server that defers every spawn until the commander is loaded, or none, over any inputs,
  -- datagrams, hellos, loads, renames and reaps, in any order, from no sessions on, if each token
  -- that is drawn is real and not in use, and the world is sound with a slot to spare at each
  -- hello and load: no endpoint key stands twice, the token index and the sessions are two views
  -- of one relation, a session is live exactly when it has a token, and one that waits for its
  -- commander has none.
  pub Reachable-IsGood : (defer : Bool) (st : Sessions) → Reachable ship defer st → IsGood st
  Reachable-IsGood defer st r = (Reachable-both defer st r).0
