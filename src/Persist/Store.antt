-- ===== src/Persist/Store.antt =====
-- `InMemoryStore` of NeuronServer/PersistenceStore.h. A std::map is a list in the order of its keys, an
-- unordered map an association list.
use deepspace_outpost_dx.Base.{
  ◌==◌, if◌then◌else◌, ℕ, Bool, true, false, ◌&&◌, ◌||◌, Option, none, some, List, [], ◌∷◌, ◌++◌,
}
use deepspace_outpost_dx.Base.Int.{ℤ, pos, ltb_ℤ, ◌==ℤ◌}
use deepspace_outpost_dx.Persist.Rows.{
  CommandLogEntry, MarketRow, SystemRow, PoiRow, PoiResourceRow, PlayerPersistState,
}

unfoldable pub same_name : List ℕ → List ℕ → Bool
same_name [] [] = true
same_name (a ∷ k) (b ∷ j) = a == b && same_name k j
same_name _ _ = false

module _ {V : Type 0} where
  unfoldable pub find_name : List ℕ → List (List ℕ × V) → Option V
  find_name k [] = none
  find_name k ((j, v) ∷ d) = if same_name j k then some v else find_name k d

  unfoldable pub put_name : List ℕ → V → List (List ℕ × V) → List (List ℕ × V)
  put_name k v [] = (k, v) ∷ []
  put_name k v ((j, w) ∷ d) = if same_name j k then (j, v) ∷ d else (j, w) ∷ put_name k v d

  -- A key is a pair of integers in lexicographic order; a single integer has a zero behind it.
  unfoldable pub put_key : ℤ × ℤ → V → List ((ℤ × ℤ) × V) → List ((ℤ × ℤ) × V)
  put_key k v [] = (k, v) ∷ []
  put_key k v ((j, w) ∷ d) =
      let rest = put_key k v d in
      if k.0 ==ℤ j.0 && k.1 ==ℤ j.1
      then (j, v) ∷ d
      else if ltb_ℤ k.0 j.0 || (k.0 ==ℤ j.0 && ltb_ℤ k.1 j.1)
      then (k, v) ∷ (j, w) ∷ d
      else (j, w) ∷ rest

  unfoldable pub values : List ((ℤ × ℤ) × V) → List V
  values [] = []
  values ((k, v) ∷ d) = v ∷ values d

pub record Store : Type 0 where
  pub players : List (List ℕ × PlayerPersistState)
  pub commands : List CommandLogEntry
  pub markets : List ((ℤ × ℤ) × MarketRow)
  pub systems : List ((ℤ × ℤ) × SystemRow)
  pub pois : List ((ℤ × ℤ) × PoiRow)
  pub poi_resources : List ((ℤ × ℤ) × PoiResourceRow)
  pub meta : List (List ℕ × List ℕ)

unfoldable pub put_market : List MarketRow → List ((ℤ × ℤ) × MarketRow) → List ((ℤ × ℤ) × MarketRow)
put_market [] d = d
put_market (r ∷ rs) d = put_market rs (put_key (r.system_id, r.commodity) r d)

unfoldable pub put_systems :
    List SystemRow → List ((ℤ × ℤ) × SystemRow) → List ((ℤ × ℤ) × SystemRow)
put_systems [] d = d
put_systems (r ∷ rs) d = put_systems rs (put_key (r.system_id, pos 0) r d)

unfoldable pub put_pois : List PoiRow → List ((ℤ × ℤ) × PoiRow) → List ((ℤ × ℤ) × PoiRow)
put_pois [] d = d
put_pois (r ∷ rs) d = put_pois rs (put_key (r.poi_id, pos 0) r d)

unfoldable pub put_resources :
    List PoiResourceRow → List ((ℤ × ℤ) × PoiResourceRow) → List ((ℤ × ℤ) × PoiResourceRow)
put_resources [] d = d
put_resources (r ∷ rs) d = put_resources rs (put_key (r.poi_id, pos 0) r d)

unfoldable pub upsert_player : PlayerPersistState → Store → Store
upsert_player p s = record s { players = put_name p.commander_name p s.players }

unfoldable pub load_player : List ℕ → Store → Option PlayerPersistState
load_player name s = find_name name s.players

unfoldable pub append_commands : List CommandLogEntry → Store → Store
append_commands batch s = record s { commands = s.commands ++ batch }

unfoldable pub upsert_market_rows : List MarketRow → Store → Store
upsert_market_rows batch s = record s { markets = put_market batch s.markets }

unfoldable pub load_market_rows : Store → List MarketRow
load_market_rows s = values s.markets

unfoldable pub upsert_systems : List SystemRow → Store → Store
upsert_systems batch s = record s { systems = put_systems batch s.systems }

unfoldable pub load_systems : Store → List SystemRow
load_systems s = values s.systems

unfoldable pub upsert_pois : List PoiRow → Store → Store
upsert_pois batch s = record s { pois = put_pois batch s.pois }

unfoldable pub load_pois : Store → List PoiRow
load_pois s = values s.pois

unfoldable pub upsert_poi_resources : List PoiResourceRow → Store → Store
upsert_poi_resources batch s = record s { poi_resources = put_resources batch s.poi_resources }

unfoldable pub load_poi_resources : Store → List PoiResourceRow
load_poi_resources s = values s.poi_resources

unfoldable pub read_meta : List ℕ → Store → Option (List ℕ)
read_meta key s = find_name key s.meta

unfoldable pub write_meta : List ℕ → List ℕ → Store → Store
write_meta key value s = record s { meta = put_name key value s.meta }
