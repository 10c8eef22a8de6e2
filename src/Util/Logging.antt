-- ===== src/Util/Logging.antt =====
-- src/util/logging.hpp. The text of a message is an argument, formatted already, and so is the reading
-- of the clock that stands before it; the line that is printed is given back.
use Prim.Native.String.{count}
use arq_benchmark.Base.{
  ℕ, suc, zero, ◌-◌, ◌/◌, ◌<◌, ◌≤◌, ◌≡◌, Bool, true, false, List, [], ◌∷◌, Option, none, some,
  length, get_elem?, leb, ltb, if◌then◌else◌, Bool-cases, ◌⊎◌, inl, inr, not_leb→lt, leb→le,
  get_elem?_in, String, ◌<>◌, Outcome, returns, throws, undefined, ◌>>=◌, arith,
}

-- A `LoggingLevel` is any `uint16_t`; these have names.
abbrev pub logging_level_none : ℕ
logging_level_none = 0

abbrev pub logging_level_error : ℕ
logging_level_error = 1

abbrev pub logging_level_warning : ℕ
logging_level_warning = 2

abbrev pub logging_level_info : ℕ
logging_level_info = 3

abbrev pub logging_level_debug : ℕ
logging_level_debug = 4

abbrev pub labels : List String
labels = "NONE" ∷ "ERROR" ∷ "WARNING" ∷ "INFO" ∷ "DEBUG" ∷ []

-- The static state of the class.
pub record Logger : Type 0 where
  pub logging_level : ℕ
  pub include_timestamp : Bool

abbrev pub initial : Logger
initial = record { logging_level = logging_level_info; include_timestamp = false }

-- `labels[level]`.
unfoldable pub logging_level_str : ℕ → Outcome String
logging_level_str level = elim (get_elem? labels level) [
  | none ↦ undefined
  | some label ↦ returns label
]

unfoldable pub set_logging_level : ℕ → Logger → Outcome Logger
set_logging_level new_level logger =
    if leb (length labels) new_level
    then throws
    else returns (record logger { logging_level = new_level })

unfoldable pub enable_timestamps : Logger → Logger
enable_timestamps logger = record logger { include_timestamp = true }

unfoldable pub disable_timestamps : Logger → Logger
disable_timestamps logger = record logger { include_timestamp = false }

-- The length of the longest label.
unfoldable pub len_longest_label : List String → ℕ
len_longest_label [] = 0
len_longest_label (label ∷ more) =
    let rest = len_longest_label more in if ltb rest (count label) then count label else rest

pub spaces : ℕ → String
spaces zero = ""
spaces (suc n) = " " <> spaces n

-- The format `{:^w}`: the text in the middle of `w` places, with the odd space behind it.
pub centred : ℕ → String → String
unfolding spaces
centred w text = let fill = w - count text in spaces (fill / 2) <> text <> spaces (fill - fill / 2)

-- The line with a label.
abbrev pub line : Logger → String → String → String → String
line logger label now message =
    (if logger.include_timestamp then now <> " " else "")
    <> "["
    <> centred (len_longest_label labels) label
    <> "]: "
    <> message

-- The line that is printed, if one is.
unfoldable pub log_message : ℕ → String → String → Logger → Outcome (Option String)
log_message level now message logger =
    if leb level logger.logging_level
    then (logging_level_str level >>= λ label. returns (some (line logger label now message)))
    else returns none

abbrev digits : List String
digits = "0" ∷ "1" ∷ "2" ∷ "3" ∷ "4" ∷ "5" ∷ "6" ∷ "7" ∷ "8" ∷ "9" ∷ []

-- `std::string(1, '0' + log_idx)`, for the ten digits that the code asserts to be enough.
abbrev digit : ℕ → String
digit log_idx = elim (get_elem? digits log_idx) [ none ↦ "" | some d ↦ d ]

-- One entry of the help text: the level as a digit, and its label.
abbrev help_entry : ℕ → String → String
help_entry log_idx label = digit log_idx <> " = " <> label

-- The loop of `helpText`, from an index on.
pub help_entries : ℕ → List String → String
help_entries log_idx [] = ""
help_entries log_idx (label ∷ []) = help_entry log_idx label
help_entries log_idx (label ∷ next ∷ more) =
    help_entry log_idx label <> ", " <> help_entries (suc log_idx) (next ∷ more)

unfoldable pub help_text : String
unfolding help_entries
help_text = "set logging level (" <> help_entries 0 labels <> ")"

-- The calls that change the logger.
pub data Call : Type 0 where
  sets_level : ℕ → Call
  enables_timestamps disables_timestamps : Call

-- A call that throws leaves the logger as it was.
unfoldable pub call : Call → Logger → Logger
call (sets_level new_level) logger = elim (set_logging_level new_level logger) as (λ o. Logger) [
  | returns changed ↦ changed
  | _ ↦ logger
]
call enables_timestamps logger = enable_timestamps logger
call disables_timestamps logger = disable_timestamps logger

pub run : List Call → Logger → Logger
run [] logger = logger
run (c ∷ calls) logger = run calls (call c logger)

-- The level of a logger has a label.
abbrev IsLabelled : Logger → Type 0
IsLabelled logger = logger.logging_level < length labels

call-IsLabelled : (c : Call) (logger : Logger) → IsLabelled logger → IsLabelled (call c logger)
unfolding call set_logging_level enable_timestamps disable_timestamps
call-IsLabelled (sets_level new_level) logger h =
    elim (Bool-cases (leb (length labels) new_level)) [
      | inl high ↦ rw (high, call) h
      | inr low ↦ rw (low, call) (not_leb→lt _ _ low)
    ]
call-IsLabelled enables_timestamps logger h = h
call-IsLabelled disables_timestamps logger h = h

run-IsLabelled :
    (calls : List Call) (logger : Logger) → IsLabelled logger → IsLabelled (run calls logger)
unfolding run
run-IsLabelled [] logger h = h
run-IsLabelled (c ∷ calls) logger h =
    run-IsLabelled calls (call c logger) (call-IsLabelled c logger h)

-- Whatever calls were made before, of whatever levels, `logMessage` reads no label out of range: it
-- prints a line if the level is at most the one that is set, and nothing if not.
pub log_message-in_range :
    (calls : List Call) (level : ℕ) (now message : String)
    → let logger = run calls initial in
      ((level ≤ logger.logging_level)
        × ((text : String) × (log_message level now message logger ≡ returns (some text))))
      ⊎ ((logger.logging_level < level) × (log_message level now message logger ≡ returns none))
unfolding log_message logging_level_str
log_message-in_range calls level now message =
    let logger = run calls initial in
    let labelled = run-IsLabelled calls initial (omega arith) in
    elim (Bool-cases (leb level logger.logging_level)) [
      | inr above ↦ inr (not_leb→lt _ _ above, rw above)
      | inl printed ↦
          let at_most = leb→le _ _ printed in
          let (label, e) = get_elem?_in labels level (omega (arith, at_most, labelled)) in
          inl (at_most, (line logger label now message, rw (printed, e, ◌>>=◌)))
    ]

-- The functions for the levels.
abbrev pub log_error : String → String → Logger → Outcome (Option String)
log_error = log_message logging_level_error

abbrev pub log_warning : String → String → Logger → Outcome (Option String)
log_warning = log_message logging_level_warning

abbrev pub log_info : String → String → Logger → Outcome (Option String)
log_info = log_message logging_level_info

abbrev pub log_debug : String → String → Logger → Outcome (Option String)
log_debug = log_message logging_level_debug
