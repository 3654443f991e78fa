-- ===== src/Log/Records.antt =====
-- What stands in the log file of src/linear_fcgi_log.cc after a run of messages.
use linear_fcgi.Common.{ℕ, zero, suc, ◌<◌, ◌≡◌, refl, sym, ap, ◌∙◌, arith, Bool, true, false}
use linear_fcgi.Common.{
  List, [], ◌∷◌, ◌++◌, ◌-◌, append-nil, append_assoc, Option, none, some, take, drop, c_str,
}
use linear_fcgi.Common.{bytes_eq, ltb, leb, if◌then◌else◌, inl, inr, Bool-cases, codes}
use mathlib.Core.List.{map, map-append}
use linear_fcgi.Log.{Log, Written, set_level, enable, line, write, buffer_size, print, short_name}
use linear_fcgi.Log.Clock.{Local, IsLocal, numbers, read_numbers, read_numbers-date_time}

-- A call of log::Print.
pub record Message : Type 0 where
  pub now : Option Local
  pub level : ℕ
  pub text : List ℕ

unfoldable pub print_all : List Message → Log → Log
unfolding print
print_all [] log = log
print_all (m ∷ ms) log = print_all ms (print m.now m.level m.text log)

-- The record that a message makes in a file.
abbrev pub record_of : List ℕ → Message → Written
record_of fname m = record {
  file = fname;
  text = line m.now m.level (take (buffer_size - 1) (c_str m.text));
}

-- The messages that are not above a level.
abbrev pub up_to : ℕ → List Message → List Message
up_to level [] = []
up_to level (m ∷ ms) = let rest = up_to level ms in if leb m.level level then m ∷ rest else rest

print-open :
    (level : ℕ) (fname : List ℕ) (written : List Written) (m : Message)
    → print m.now m.level m.text (record { level = level; file = some fname; written = written })
      ≡ record {
        level = level;
        file = some fname;
        written = written ++ map (record_of fname) (up_to level (m ∷ []));
      }
unfolding print write
print-open level fname written m = elim (Bool-cases (leb m.level level)) [
  | inl low ↦ let above : ltb level m.level ≡ false = ground arith in rw (low, above) refl
  | inr high ↦
      let above : ltb level m.level ≡ true = ground arith in
      rw (high, above)
        (ap (λ w. record { level = level; file = some fname; written = w })
          (sym (append-nil written)))
]

up_to-append :
    (level : ℕ) (m : Message) (ms : List Message)
    → up_to level (m ∷ ms) ≡ up_to level (m ∷ []) ++ up_to level ms
up_to-append level m ms = elim (Bool-cases (leb m.level level)) [
  | inl low ↦ rw low refl
  | inr high ↦ rw high refl
]

print_all-open :
    (level : ℕ) (fname : List ℕ) (written : List Written) (ms : List Message)
    → print_all ms (record { level = level; file = some fname; written = written }) ≡ record {
      level = level;
      file = some fname;
      written = written ++ map (record_of fname) (up_to level ms);
    }
unfolding print_all
print_all-open level fname written [] =
    ap (λ w. record { level = level; file = some fname; written = w }) (sym (append-nil written))
print_all-open level fname written (m ∷ ms) =
    ap (print_all ms) (print-open level fname written m)
    ∙ print_all-open level fname (written ++ map (record_of fname) (up_to level (m ∷ []))) ms
    ∙ ap (λ w. record { level = level; file = some fname; written = w })
        (append_assoc written _ _
          ∙ ap (λ t. written ++ t)
              (sym (map-append (record_of fname) (up_to level (m ∷ [])) (up_to level ms))
                ∙ ap (map (record_of fname)) (sym (up_to-append level m ms))))

print_all-closed :
    (level : ℕ) (written : List Written) (ms : List Message)
    → print_all ms (record { level = level; file = none; written = written })
      ≡ record { level = level; file = none; written = written }
unfolding print_all print write
print_all-closed level written [] = refl
print_all-closed level written (m ∷ ms) = elim (Bool-cases (ltb level m.level)) [
  | inl above ↦ rw above (print_all-closed level written ms)
  | inr low ↦ rw low (print_all-closed level written ms)
]

-- Once a level is set and a file is enabled, the printed messages stand in that file one record
-- each, in their order, the ones above the level left out; when the file cannot be opened, nothing is written.
pub print_all-enable :
    (fopen : List ℕ → Bool) (fname : List ℕ) (level : ℕ) (ms : List Message) (log : Log)
    → print_all ms (enable fopen fname (set_level level log)) ≡ record {
      level = level;
      file = if fopen fname then some fname else none;
      written = log.written ++ (if fopen fname then map (record_of fname) (up_to level ms) else []);
    }
unfolding enable set_level
print_all-enable fopen fname level ms log = elim (Bool-cases (fopen fname)) [
  | inl opened ↦ rw opened (print_all-open level fname log.written ms)
  | inr closed ↦ rw closed (
      print_all-closed level log.written ms
      ∙ ap (λ w. record { level = level; file = none; written = w }) (sym (append-nil log.written)))
]

-- The level of a tag, 0 for another text.
unfoldable pub read_level : List ℕ → ℕ
unfolding bytes_eq
read_level tag =
    if bytes_eq tag (codes "ERR")
    then 1
    else if bytes_eq tag (codes "WRN")
    then 2
    else if bytes_eq tag (codes "INF")
    then 3
    else if bytes_eq tag (codes "DBG")
    then 4
    else 0

-- The numbers of the date, the level and the message of a record.
unfoldable pub read_record : List ℕ → List ℕ × ℕ × List ℕ
unfolding read_level
read_record text =
    let (date, rest) = read_numbers 7 text in (date, read_level (take 3 (drop 2 rest)), drop 7 rest)

read_tag :
    (level : ℕ) (message : List ℕ)
    → 0 < level
    → level < 5
    → (read_level (take 3 (short_name level ++ (codes "] " ++ message))) ≡ level)
      × (drop 5 (short_name level ++ (codes "] " ++ message)) ≡ message)
unfolding short_name read_level bytes_eq
read_tag zero message h k = absurd (omega arith)
read_tag (suc zero) message h k = (refl, refl)
read_tag (suc (suc zero)) message h k = (refl, refl)
read_tag (suc (suc (suc zero))) message h k = (refl, refl)
read_tag (suc (suc (suc (suc zero)))) message h k = (refl, refl)
read_tag (suc (suc (suc (suc (suc level))))) message h k = absurd (omega arith)

-- The record of a message, whose level is one of the four and whose date is one of the calendar,
-- is read back: the numbers of the date, the level and the message.
pub read_record-line :
    (t : Local) (level : ℕ) (message : List ℕ)
    → IsLocal t
    → 0 < level
    → level < 5
    → read_record (line (some t) level message) ≡ (numbers t, level, message)
unfolding line read_record
read_record-line t level message date low high =
    let (tag, rest) = read_tag level message low high in
    rw
      (
        read_numbers-date_time t (codes " [" ++ (short_name level ++ (codes "] " ++ message))) date,
        tag,
        rest,
      )
      refl
