-- ===== src/Persist/Tests.antt =====
-- A commander who is saved twice around a pass of the writer thread.
use deepspace_outpost_dx.Base.{◌≡◌, refl, false, some, List, [], ◌∷◌}
use deepspace_outpost_dx.Base.Int.{ℤ, pos}
use deepspace_outpost_dx.Persist.Rows.{PlayerPersistState}
use deepspace_outpost_dx.Persist.Store.{same_name, load_player}
use deepspace_outpost_dx.Persist.Names.{IsNamed}
use deepspace_outpost_dx.Persist.Service.{Service, flush_pending_once}
use deepspace_outpost_dx.Persist.WriteBehind.{
  Action, snapshot, drain_done, flush_queue, act_all, act_at_once, all_at_once, table_of, IsQueued,
  flush-refines,
}

abbrev jameson : ℤ → PlayerPersistState
jameson credits = record {
  commander_name = 0x4A ∷ [];
  credits = credits;
  fuel_tenths = pos 70;
  wanted_level = pos 0;
  score = pos 0;
  hold_capacity = pos 20;
  missiles = pos 3;
  equip_flags = 0;
  last_system_id = pos 7;
  in_witchspace = false;
  updated_tick = 0;
  cargo = [];
}

abbrev idle : Service
idle = record {
  store = record {
    players = [];
    commands = [];
    markets = [];
    systems = [];
    pois = [];
    poi_resources = [];
    meta = [];
  };
  ring_cap = 8;
  pending_players = [];
  pending_commands = [];
  pending_markets = [];
  pending_loads = [];
  completed_loads = [];
  dropped_commands = 0;
}

idle-IsQueued : IsQueued idle
idle-IsQueued = record { named = unfold IsNamed in tt; filed = tt }

abbrev evening : List Action
evening = snapshot (jameson (pos 5)) ∷ flush_queue ∷ snapshot (jameson (pos 9)) ∷ drain_done ∷ []

flush-refines_example :
    load_player (0x4A ∷ []) (flush_pending_once (act_all evening idle)).1.store
    ≡ all_at_once evening (table_of idle) (0x4A ∷ [])
flush-refines_example = flush-refines evening idle (0x4A ∷ []) idle-IsQueued

last_saved : all_at_once evening (table_of idle) (0x4A ∷ []) ≡ some (jameson (pos 9))
last_saved = unfold all_at_once act_at_once same_name in refl
