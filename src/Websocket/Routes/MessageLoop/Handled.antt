-- ===== src/Websocket/Routes/MessageLoop/Handled.antt =====
-- What one accepted message does to a connection, and many do.
use mathlib.Core.Path.{ap₂}
use ai_proctor_engine.Base.{
  ℕ, zero, suc, String, eq_iff, ◌+◌, ◌-◌, ◌≡◌, refl, sym, ap, Bool, true, false, Option, none, some,
  List, [], ◌∷◌, ◌++◌, length, append-nil, if◌then◌else◌, Option-cases, inl, inr, arith,
}
use ai_proctor_engine.Inference.{Json, null, bool, int, float, text, arr, obj}
use ai_proctor_engine.Websocket.Messages.{
  ClientMessage, Payload, light, heavy_frame, audio, browser, kill_switch,
}
use ai_proctor_engine.Websocket.EventBuffer.{TelemetryEventBuffer, push}
use ai_proctor_engine.Websocket.Delivery.{DeliveryService, next_ack, record_kill_switch_ack}
use ai_proctor_engine.Websocket.Routes.MessageLoop.{
  crashed, Connection, is_pong, acknowledge, buffer_message, handle_payload, Turn, again, over,
}

-- The numbers of `n` acknowledgements from `seq` on.
abbrev pub numbers : ℕ → ℕ → List ℕ
numbers seq zero = []
numbers seq (suc n) = seq ∷ numbers (seq + 1) n

acked-seq :
    (flag_id : String) (d : DeliveryService) → (record_kill_switch_ack flag_id d).1.seq ≡ d.seq
unfolding record_kill_switch_ack
acked-seq flag_id d = elim (Option-cases d.pending_kill) [
  | inl e ↦ ground (arith, e)
  | inr (p, e) ↦ ground (arith, e)
]

module _ {F : Type 0} where
  pub buffered :
      Payload F
      → ClientMessage F
      → ℕ
      → TelemetryEventBuffer (ClientMessage F)
      → TelemetryEventBuffer (ClientMessage F)
  buffered (kill_switch p) m now b = b
  buffered (light p) m now b = (push m now b).1
  buffered (heavy_frame p) m now b = (push m now b).1
  buffered (audio p) m now b = (push m now b).1
  buffered (browser p) m now b = (push m now b).1

  -- The buffer after the telemetry of the messages: an acknowledgement of a kill switch is none.
  unfoldable pub push_all :
      List (ClientMessage F × ℕ)
      → TelemetryEventBuffer (ClientMessage F)
      → TelemetryEventBuffer (ClientMessage F)
  unfolding buffered
  push_all [] b = b
  push_all ((m, now) ∷ ms) b = push_all ms (buffered m.payload m now b)

  -- One accepted message takes the next number and is buffered where it is telemetry. Its
  -- acknowledgement is sent, or the sending fails and ends the loop.
  pub data Handled (m : ClientMessage F) (now : ℕ) (conn : Connection F)
      : Bool → Turn F → Type 0 where
    delivers :
        (after : Connection F)
        → after.sent ≡ conn.sent ++ (conn.delivery.seq ∷ [])
        → after.delivery.seq ≡ conn.delivery.seq + 1
        → after.buffer ≡ buffered m.payload m now conn.buffer
        → Handled m now conn true (again after)
    fails :
        (after : Connection F)
        → after.sent ≡ conn.sent
        → after.delivery.seq ≡ conn.delivery.seq + 1
        → after.buffer ≡ buffered m.payload m now conn.buffer
        → Handled m now conn false (over crashed after)

  acknowledge-Handled :
      (m : ClientMessage F) (now : ℕ) (delivered : Bool) (conn middle : Connection F)
      → middle.sent ≡ conn.sent
      → middle.delivery.seq ≡ conn.delivery.seq
      → middle.buffer ≡ buffered m.payload m now conn.buffer
      → Handled m now conn delivered (acknowledge delivered middle)
  unfolding acknowledge next_ack
  acknowledge-Handled m now true conn middle sent seq buffer =
      delivers
        (record middle {
          delivery = (next_ack middle.delivery).1;
          sent = middle.sent ++ (middle.delivery.seq ∷ []);
        })
        (ap₂ (λ xs k. xs ++ (k ∷ [])) sent seq) (ap (λ k. k + 1) seq) buffer
  acknowledge-Handled m now false conn middle sent seq buffer =
      fails (record middle { delivery = (next_ack middle.delivery).1 }) sent (ap (λ k. k + 1) seq)
        buffer

  pub handle_payload-Handled :
      (p : Payload F) (m : ClientMessage F) (now : ℕ) (delivered : Bool) (conn : Connection F)
      → m.payload ≡ p
      → Handled m now conn delivered (handle_payload p m now delivered conn)
  unfolding handle_payload buffered buffer_message
  handle_payload-Handled (kill_switch p) m now delivered conn e =
      acknowledge-Handled m now delivered conn
        (record conn { delivery = (record_kill_switch_ack p.flag_id conn.delivery).1 }) refl
        (acked-seq p.flag_id conn.delivery) (ap (λ x. buffered x m now conn.buffer) (sym e))
  handle_payload-Handled (light p) m now delivered conn e =
      acknowledge-Handled m now delivered conn (buffer_message m now conn) refl refl
        (ap (λ x. buffered x m now conn.buffer) (sym e))
  handle_payload-Handled (heavy_frame p) m now delivered conn e =
      acknowledge-Handled m now delivered conn (buffer_message m now conn) refl refl
        (ap (λ x. buffered x m now conn.buffer) (sym e))
  handle_payload-Handled (audio p) m now delivered conn e =
      acknowledge-Handled m now delivered conn (buffer_message m now conn) refl refl
        (ap (λ x. buffered x m now conn.buffer) (sym e))
  handle_payload-Handled (browser p) m now delivered conn e =
      acknowledge-Handled m now delivered conn (buffer_message m now conn) refl refl
        (ap (λ x. buffered x m now conn.buffer) (sym e))

  pub is_pong-text : (v : Option (Json F)) → is_pong v ≡ true → v ≡ some (text "pong")
  unfolding is_pong
  is_pong-text none h = ground (arith, h)
  is_pong-text (some null) h = ground (arith, h)
  is_pong-text (some (bool b)) h = ground (arith, h)
  is_pong-text (some (int n)) h = ground (arith, h)
  is_pong-text (some (float v)) h = ground (arith, h)
  is_pong-text (some (arr items)) h = ground (arith, h)
  is_pong-text (some (obj fields)) h = ground (arith, h)
  is_pong-text (some (text s)) h = ap (λ t. some (text t)) ((eq_iff s "pong").0 h)

  -- What a connection took in: it used up a number for each message, and all of them went into the
  -- buffer in order where they are telemetry. It sent the acknowledgements of all messages, or of all
  -- but the last one.
  pub record Took (ms : List (ClientMessage F × ℕ)) (all_sent : Bool) (conn after : Connection F)
      : Type 0 where
    pub acknowledged :
        after.sent
        ≡ conn.sent ++ numbers conn.delivery.seq (if all_sent then length ms else length ms - 1)
    pub next : after.delivery.seq ≡ conn.delivery.seq + length ms
    pub pushed : after.buffer ≡ push_all ms conn.buffer

  pub Took-none : (conn : Connection F) → Took [] true conn conn
  unfolding push_all
  Took-none conn = record {
    acknowledged = sym (append-nil conn.sent);
    next = omega arith;
    pushed = refl;
  }
