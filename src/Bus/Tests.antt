-- ===== src/Bus/Tests.antt =====
-- A bus with a handler that answers every message by another one.
use deepspace_outpost_dx.Base.{
  length, lookup, ℕ, ◌+◌, ◌≤◌, ◌≡◌, refl, true, false, [], ◌∷◌, ◌++◌, arith,
}
use deepspace_outpost_dx.Bus.{
  wire, control, Bus, no_stats, publish, invoke_from, run_batch, generation, drain, dispatch,
}
use deepspace_outpost_dx.Bus.Delivery.{Delivers, dispatch-Delivers}
use deepspace_outpost_dx.Bus.Order.{controls, publish-controls}

abbrev quiet_bus : Bus ℕ
quiet_bus = record {
  handlers = (5, record { token = 1; active = true } ∷ []) ∷ [];
  queue = record { id = 5; scope = wire; seq = 1; payload = 40 } ∷ [];
  stats = no_stats;
  next_token = 1;
  seq = 1;
  dirty = false;
}

-- The handler publishes a message of the same id again, which never ends by itself.
abbrev echo : ℕ → ℕ → Bus ℕ → Bus ℕ
echo token payload b = publish 5 wire (payload + 1) b

publish-controls_example :
    let c = publish 5 control 41 quiet_bus in
    (controls c.queue
      ≡ controls quiet_bus.queue
        ++ controls (record { id = 5; scope = control; seq = c.seq; payload = 41 } ∷ []))
    × (length c.queue + c.stats.dropped ≡ length quiet_bus.queue + 0 + 1)
    × (length c.queue ≤ c.stats.max_queue_depth_seen)
publish-controls_example = publish-controls 5 control 41 quiet_bus (omega arith)

echo_steady : (t payload : ℕ) (b : Bus ℕ) → (echo t payload b).handlers ≡ b.handlers
unfolding publish
echo_steady t payload b = refl

dispatch-Delivers_example : Delivers echo 16 quiet_bus (dispatch echo quiet_bus)
dispatch-Delivers_example = dispatch-Delivers echo echo_steady quiet_bus

dispatch_stops : (dispatch echo quiet_bus).stats.generations ≡ 16
unfolding dispatch drain generation run_batch invoke_from publish lookup
dispatch_stops = refl
