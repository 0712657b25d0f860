-- ===== src/Websocket/Delivery/Retries.antt =====
-- What a connection sends over a sequence of calls of its delivery service.
use mathlib.Core.Path.{ap₂}
use mathlib.Core.Option.{map}
use ai_proctor_engine.Base.{
  ℕ, zero, suc, String, str_eq, ◌+◌, ◌-◌, ◌*◌, ◌≤◌, ◌≡◌, refl, ap, subst, ◌∙◌, false, Option, none,
  some, List, [], ◌∷◌, length, arith, All, Outcome, ok, raised, if◌then◌else◌,
}
use ai_proctor_engine.Websocket.Delivery.{
  DeliveryService, KillSwitchDeliver, Prepared, prepared, already_pending, invalid, make_service,
  next_ack, prepare_kill_switch, record_kill_switch_ack, should_retry_kill_switch,
}

pub data Call : Type 0 where
  acks : Call
  prepares : String → String → ℕ → Call
  confirms : String → Call
  retries : ℕ → ℕ → Call

-- What the calls sent: the numbers of the acknowledgements, how many kill switches were prepared, and
-- how many were sent again.
pub record Sent : Type 0 where
  pub acks_sent : List ℕ
  pub kills : ℕ
  pub resends : ℕ

nothing : Sent
nothing = record { acks_sent = []; kills = 0; resends = 0 }

abbrev kills_of : Prepared → ℕ
kills_of (prepared m) = 1
kills_of (already_pending f) = 0
kills_of invalid = 0

abbrev resends_of : Outcome (Option KillSwitchDeliver) → ℕ
resends_of (ok (some m)) = 1
resends_of (ok none) = 0
resends_of (raised e) = 0

unfoldable pub serve : List Call → DeliveryService → Sent × DeliveryService
unfolding nothing
serve [] s = (nothing, s)
serve (acks ∷ calls) s =
    let (seq, s') = next_ack s in
    let (sent, end) = serve calls s' in (record sent { acks_sent = seq ∷ sent.acks_sent }, end)
serve (prepares flag_id reason now ∷ calls) s =
    let (reply, s') = prepare_kill_switch flag_id reason now s in
    let (sent, end) = serve calls s' in (record sent { kills = kills_of reply + sent.kills }, end)
serve (confirms flag_id ∷ calls) s = serve calls (record_kill_switch_ack flag_id s).1
serve (retries now later ∷ calls) s =
    let (reply, s') = should_retry_kill_switch now later s in
    let (sent, end) = serve calls s' in
    (record sent { resends = resends_of reply + sent.resends }, end)

-- The resends that the pending kill switch has left: with an empty flag id each one raises.
budget : DeliveryService → ℕ
budget s = elim s.pending_kill [
  | none ↦ 0
  | some p ↦ if str_eq p.flag_id "" then 0 else s.max_retries - p.retries
]

unfoldable pub upto : ℕ → ℕ → List ℕ
upto from zero = []
upto from (suc n) = from ∷ upto (from + 1) n

prepare-effect :
    (flag_id reason : String) (now : ℕ) (s : DeliveryService)
    → let (reply, s') = prepare_kill_switch flag_id reason now s in
      (s'.seq ≡ s.seq)
      × (s'.max_retries ≡ s.max_retries)
      × (budget s' ≤ budget s + kills_of reply * s.max_retries)
unfolding prepare_kill_switch budget
prepare-effect flag_id reason now s = ground arith

confirm-effect :
    (flag_id : String) (s : DeliveryService)
    → let s' = (record_kill_switch_ack flag_id s).1 in
      (s'.seq ≡ s.seq) × (s'.max_retries ≡ s.max_retries) × (budget s' ≡ budget s)
unfolding record_kill_switch_ack budget
confirm-effect flag_id s = ground arith

retry-effect :
    (now later : ℕ) (s : DeliveryService)
    → let (reply, s') = should_retry_kill_switch now later s in
      (s'.seq ≡ s.seq)
      × (s'.max_retries ≡ s.max_retries)
      × (budget s' + resends_of reply ≤ budget s)
unfolding should_retry_kill_switch budget
retry-effect now later s = ground arith

acks_in_order :
    (calls : List Call) (s : DeliveryService)
    → let sent = (serve calls s).0 in sent.acks_sent ≡ upto s.seq (length sent.acks_sent)
unfolding serve upto next_ack
acks_in_order [] s = refl
acks_in_order (acks ∷ calls) s = ap (◌∷◌ s.seq) (acks_in_order calls (next_ack s).1)
acks_in_order (prepares flag_id reason now ∷ calls) s =
    let s' = (prepare_kill_switch flag_id reason now s).1 in
    acks_in_order calls s'
    ∙ ap (λ n. upto n (length (serve calls s').0.acks_sent)) (prepare-effect flag_id reason now s).0
acks_in_order (confirms flag_id ∷ calls) s =
    let s' = (record_kill_switch_ack flag_id s).1 in
    acks_in_order calls s'
    ∙ ap (λ n. upto n (length (serve calls s').0.acks_sent)) (confirm-effect flag_id s).0
acks_in_order (retries now later ∷ calls) s =
    let s' = (should_retry_kill_switch now later s).1 in
    acks_in_order calls s'
    ∙ ap (λ n. upto n (length (serve calls s').0.acks_sent)) (retry-effect now later s).0

mul_add : (a b m : ℕ) → (a + b) * m ≡ a * m + b * m
mul_add a b m = grind arith

resends_bounded :
    (calls : List Call) (s : DeliveryService)
    → let sent = (serve calls s).0 in sent.resends ≤ sent.kills * s.max_retries + budget s
unfolding serve next_ack budget
resends_bounded [] s = omega arith
resends_bounded (acks ∷ calls) s = resends_bounded calls (next_ack s).1
resends_bounded (prepares flag_id reason now ∷ calls) s =
    let (reply, s') = prepare_kill_switch flag_id reason now s in
    let (seq, max, spend) = prepare-effect flag_id reason now s in
    let later : (serve calls s').0.resends ≤ (serve calls s').0.kills * s.max_retries + budget s' =
      subst (λ m. (serve calls s').0.resends ≤ (serve calls s').0.kills * m + budget s') max
        (resends_bounded calls s') in
    omega (arith, later, spend, mul_add (kills_of reply) (serve calls s').0.kills s.max_retries)
resends_bounded (confirms flag_id ∷ calls) s =
    let s' = (record_kill_switch_ack flag_id s).1 in
    let (seq, max, same) = confirm-effect flag_id s in
    let later : (serve calls s').0.resends ≤ (serve calls s').0.kills * s.max_retries + budget s' =
      subst (λ m. (serve calls s').0.resends ≤ (serve calls s').0.kills * m + budget s') max
        (resends_bounded calls s') in
    omega (arith, later, same)
resends_bounded (retries now at ∷ calls) s =
    let (reply, s') = should_retry_kill_switch now at s in
    let (seq, max, spend) = retry-effect now at s in
    let later : (serve calls s').0.resends ≤ (serve calls s').0.kills * s.max_retries + budget s' =
      subst (λ m. (serve calls s').0.resends ≤ (serve calls s').0.kills * m + budget s') max
        (resends_bounded calls s') in
    omega (arith, later, spend)

-- One connection numbers its acknowledgements from 0 without a gap, and it sends kill switches again
-- at most `max_retries` times for each that it prepared, whatever the calls and their times are.
pub serve-bounded :
    (grace max_retries : ℕ) (calls : List Call)
    → let sent = (serve calls (make_service grace max_retries)).0 in
      (sent.acks_sent ≡ upto 0 (length sent.acks_sent)) × (sent.resends ≤ sent.kills * max_retries)
unfolding budget
serve-bounded grace max_retries calls =
    let s = make_service grace max_retries in
    (acks_in_order calls s, omega (arith, resends_bounded calls s))

-- The call acknowledges no kill switch of this flag.
abbrev pub Unconfirmed : String → Call → Type 0
Unconfirmed flag_id (confirms f) = str_eq flag_id f ≡ false
Unconfirmed flag_id _ = Unit

-- The kill switch of this flag is sent and not acknowledged.
abbrev pub InFlight : String → DeliveryService → Type 0
InFlight flag_id s =
    (s.kill_switch_acked ≡ false) × ((map (λ p. p.flag_id) s.pending_kill) ≡ some flag_id)

prepare-InFlight :
    (flag_id f reason : String) (now : ℕ) (s : DeliveryService)
    → InFlight flag_id s
    → let (reply, s') = prepare_kill_switch f reason now s in
      (kills_of reply ≡ 0) × InFlight flag_id s'
unfolding prepare_kill_switch
prepare-InFlight flag_id f reason now s h = ground arith

retry-InFlight :
    (flag_id : String) (now later : ℕ) (s : DeliveryService)
    → InFlight flag_id s
    → InFlight flag_id (should_retry_kill_switch now later s).1
unfolding should_retry_kill_switch
retry-InFlight flag_id now later s h = ground arith

confirm-InFlight :
    (flag_id f : String) (s : DeliveryService)
    → str_eq flag_id f ≡ false
    → InFlight flag_id s
    → InFlight flag_id (record_kill_switch_ack f s).1
unfolding record_kill_switch_ack
confirm-InFlight flag_id f s other h = ground arith

-- A kill switch in flight stays in flight, and no second one is prepared, through any calls that
-- bring no acknowledgement for its flag.
pub serve-InFlight :
    (flag_id : String) (calls : List Call) (s : DeliveryService)
    → InFlight flag_id s
    → All (Unconfirmed flag_id) calls
    → let (sent, end) = serve calls s in InFlight flag_id end × (sent.kills ≡ 0)
unfolding serve next_ack
serve-InFlight flag_id [] s h un = (h, refl)
serve-InFlight flag_id (acks ∷ calls) s h (u, un) = serve-InFlight flag_id calls (next_ack s).1 h un
serve-InFlight flag_id (prepares f reason now ∷ calls) s h (u, un) =
    let (none_sent, h') = prepare-InFlight flag_id f reason now s h in
    let (end, kills) = serve-InFlight flag_id calls (prepare_kill_switch f reason now s).1 h' un in
    (end, ap₂ ◌+◌ none_sent kills)
serve-InFlight flag_id (confirms f ∷ calls) s h (u, un) =
    serve-InFlight flag_id calls (record_kill_switch_ack f s).1 (confirm-InFlight flag_id f s u h)
      un
serve-InFlight flag_id (retries now later ∷ calls) s h (u, un) =
    serve-InFlight flag_id calls (should_retry_kill_switch now later s).1
      (retry-InFlight flag_id now later s h) un
