-- ===== src/Persist/Rows.antt =====
-- NeuronServer/PersistenceStore.h and PlayerPersistState.h: the rows. A string is the list of its bytes.
use deepspace_outpost_dx.Base.{ℕ, Bool, List}
use deepspace_outpost_dx.Base.Int.{ℤ}

pub record CommandLogEntry : Type 0 where
  pub world_tick : ℕ
  pub player_id : ℤ
  pub message_id : ℤ
  pub payload : List ℕ

pub record MarketRow : Type 0 where
  pub system_id : ℤ
  pub commodity : ℤ
  pub stock : ℤ
  pub price : ℤ
  pub updated_tick : ℕ

pub record SystemRow : Type 0 where
  pub system_id : ℤ
  pub name : List ℕ
  pub planet_x : ℤ
  pub planet_y : ℤ
  pub planet_z : ℤ
  pub station_x : ℤ
  pub station_y : ℤ
  pub station_z : ℤ
  pub economy : ℤ
  pub government : ℤ
  pub tech_level : ℤ
  pub population : ℤ
  pub productivity : ℤ
  pub radius : ℤ
  pub market_seed : ℤ

pub record PoiRow : Type 0 where
  pub poi_id : ℤ
  pub system_id : ℤ
  pub kind : ℤ
  pub x : ℤ
  pub y : ℤ
  pub z : ℤ
  pub radius : ℤ
  pub seed : ℤ
  pub commodity : ℤ
  pub richness : ℤ
  pub encounter_def : ℤ
  pub owner_empire : ℤ
  pub link_poi : ℤ
  pub enabled : Bool
  pub template_id : ℤ
  pub authored : Bool

pub record PoiResourceRow : Type 0 where
  pub poi_id : ℤ
  pub units : ℤ
  pub baseline : ℤ
  pub updated_tick : ℕ

pub record PlayerPersistState : Type 0 where
  pub commander_name : List ℕ
  pub credits : ℤ
  pub fuel_tenths : ℤ
  pub wanted_level : ℤ
  pub score : ℤ
  pub hold_capacity : ℤ
  pub missiles : ℤ
  pub equip_flags : ℕ
  pub last_system_id : ℤ
  pub in_witchspace : Bool
  pub updated_tick : ℕ
  pub cargo : List ℤ
