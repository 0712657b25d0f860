-- ===== src/Websocket/Delivery.antt =====
-- The delivery of acknowledgements and of the kill switch over one connection (`DeliveryService` of
-- websocket/server.py). The monotonic clock is an argument of the methods that read it, in
-- milliseconds, and so is the grace time.
pub mod Retries
use ai_proctor_engine.Base.{
  ℕ, String, str_eq, ◌+◌, Bool, true, false, not, ◌&&◌, ◌||◌, Option, none, some, List, [], ◌∷◌,
  ltb, leb, if◌then◌else◌, Outcome, ok, raised, value_error,
}

pub record PendingKillSwitch : Type 0 where
  pub flag_id : String
  pub sent_at : ℕ
  pub retries : ℕ

pub record DeliveryService : Type 0 where
  pub seq : ℕ
  pub ack_grace : ℕ
  pub max_retries : ℕ
  pub pending_kill : Option PendingKillSwitch
  pub kill_switch_acked : Bool

-- `KillSwitchDeliver` with its payload.
pub record KillSwitchDeliver : Type 0 where
  pub reason : String
  pub flag_id : String

-- The reply of `prepare_kill_switch`, or its `KillSwitchDeliverError`, which names the flag pending, or
-- the `ValidationError` for an empty flag id, which comes after the kill switch became pending.
pub data Prepared : Type 0 where
  prepared : KillSwitchDeliver → Prepared
  already_pending : String → Prepared
  invalid : Prepared

abbrev pub make_service : ℕ → ℕ → DeliveryService
make_service ack_grace max_retries = record {
  seq = 0;
  ack_grace = ack_grace;
  max_retries = max_retries;
  pending_kill = none;
  kill_switch_acked = false;
}

unfoldable pub has_pending_kill_switch : DeliveryService → Bool
has_pending_kill_switch s = elim s.pending_kill [ none ↦ false | some p ↦ not s.kill_switch_acked ]

-- The payload's `seq`.
unfoldable pub next_ack : DeliveryService → ℕ × DeliveryService
next_ack s = (s.seq, record s { seq = s.seq + 1 })

abbrev fresh_kill : String → ℕ → DeliveryService → DeliveryService
fresh_kill flag_id now s = record s {
  pending_kill = some (record { flag_id = flag_id; sent_at = now; retries = 0 });
  kill_switch_acked = false;
}

unfoldable pub prepare_kill_switch :
    String → String → ℕ → DeliveryService → Prepared × DeliveryService
prepare_kill_switch flag_id reason now s =
    let reply : Prepared =
      if str_eq flag_id ""
      then invalid
      else prepared (record { reason = reason; flag_id = flag_id }) in
    let done : Prepared × DeliveryService = (reply, fresh_kill flag_id now s) in
    elim s.pending_kill [
      | none ↦ done
      | some p ↦ if not s.kill_switch_acked then (already_pending p.flag_id, s) else done
    ]

unfoldable pub record_kill_switch_ack : String → DeliveryService → Bool × DeliveryService
record_kill_switch_ack flag_id s = elim s.pending_kill [
  | none ↦ (false, s)
  | some p ↦
      if not (str_eq p.flag_id flag_id)
      then (false, s)
      else (true, record s { kill_switch_acked = true })
]

-- The clock is read twice: for the elapsed time, and for the new `sent_at`. The message is built
-- last, and its `ValidationError` for an empty flag id is a `ValueError`.
unfoldable pub should_retry_kill_switch :
    ℕ → ℕ → DeliveryService → Outcome (Option KillSwitchDeliver) × DeliveryService
should_retry_kill_switch now later s = elim s.pending_kill [
  | none ↦ (ok none, s)
  | some p ↦
      if s.kill_switch_acked
      then (ok none, s)
      else if ltb now (p.sent_at + s.ack_grace)
      then (ok none, s)
      else if leb s.max_retries p.retries
      then (ok none, s)
      else (
        (if str_eq p.flag_id ""
            then raised value_error
            else ok (some (record { reason = "retry"; flag_id = p.flag_id }))),
        record s { pending_kill = some (record p { retries = p.retries + 1; sent_at = later }) },
      )
]
