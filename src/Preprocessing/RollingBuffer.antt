-- ===== src/Preprocessing/RollingBuffer.antt =====
-- The client's circular buffer of frames, in its Python twin (preprocessing/rolling_buffer.py). The
-- length of a payload and the number of its `=` stand for its text.
pub mod Eviction
use ai_proctor_engine.Base.{
  ℕ, String, str_eq, ◌+◌, ◌-◌, ◌*◌, ◌/◌, Bool, true, false, not, ◌&&◌, ◌||◌, Option, none, some,
  List, [], ◌∷◌, ◌++◌, length, last?, map, drop, ltb, leb, ◌==◌, if◌then◌else◌, Outcome, ok, raised,
  value_error, buffer_flush_error,
}

pub record RollingBufferConfig : Type 0 where
  pub capture_interval_ms : ℕ
  pub window_seconds : ℕ
  pub max_bytes_per_entry : ℕ
  pub max_entries : ℕ
  pub max_total_bytes : ℕ

unfoldable pub make_config : ℕ → ℕ → ℕ → ℕ → ℕ → Outcome RollingBufferConfig
make_config interval window per_entry entries total =
    if not (leb 200 interval && leb interval 500)
    then raised value_error
    else if not (leb 10 window && leb window 15)
    then raised value_error
    else if entries == 0
    then raised value_error
    else if per_entry == 0
    then raised value_error
    else if total == 0
    then raised value_error
    else ok (record {
      capture_interval_ms = interval;
      window_seconds = window;
      max_bytes_per_entry = per_entry;
      max_entries = entries;
      max_total_bytes = total;
    })

pub record RollingBufferEntry : Type 0 where
  pub captured_at : ℕ
  pub encoded_length : ℕ
  pub encoded_padding : ℕ
  pub encoding : String
  pub width : ℕ
  pub height : ℕ
  pub size_bytes : ℕ

-- The checks of `RollingBufferEntry` that a size on ℕ and a pair of dimensions can fail.
unfoldable pub check_entry : RollingBufferEntry → Outcome RollingBufferEntry
check_entry e =
    if not (str_eq e.encoding "jpeg" || (str_eq e.encoding "png" || str_eq e.encoding "webp"))
    then raised buffer_flush_error
    else if e.encoded_length == 0
    then raised buffer_flush_error
    else ok e

pub record InMemoryRollingBuffer : Type 0 where
  pub session_id : String
  pub config : RollingBufferConfig
  pub entries : List RollingBufferEntry

-- `math.ceil((len(encoded) - pad) * 3 / 4)`
unfoldable pub approx_decoded_size : RollingBufferEntry → ℕ
approx_decoded_size e =
    if e.encoded_length == 0 then 0 else ((e.encoded_length - e.encoded_padding) * 3 + 3) / 4

unfoldable pub total_bytes : List RollingBufferEntry → ℕ
total_bytes [] = 0
total_bytes (e ∷ entries) = e.size_bytes + total_bytes entries

abbrev pub is_over : RollingBufferConfig → List RollingBufferEntry → Bool
is_over config entries =
    ltb config.max_entries (length entries) || ltb config.max_total_bytes (total_bytes entries)

-- The `while` loop: `pop(0)` while a bound is exceeded. `pop` on an empty list would raise; an empty
-- list exceeds no bound.
unfoldable pub evict : RollingBufferConfig → List RollingBufferEntry → List RollingBufferEntry
evict config [] = []
evict config (e ∷ entries) =
    let rest = evict config entries in if is_over config (e ∷ entries) then rest else e ∷ entries

unfoldable pub append : RollingBufferEntry → InMemoryRollingBuffer → Outcome InMemoryRollingBuffer
append e b =
    if ltb b.config.max_bytes_per_entry (approx_decoded_size e)
    then raised buffer_flush_error
    else ok (record b { entries = evict b.config (b.entries ++ (e ∷ [])) })

unfoldable pub window_start : InMemoryRollingBuffer → Option ℕ
window_start b = elim b.entries [ [] ↦ none | e ∷ entries ↦ some e.captured_at ]

unfoldable pub window_end : InMemoryRollingBuffer → Option ℕ
window_end b = elim (last? b.entries) [ none ↦ none | some e ↦ some e.captured_at ]
