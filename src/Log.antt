-- ===== src/Log.antt =====
-- log.h and log.cpp: the lines of the log, from the calls of LOG to the files.
pub mod Files
use kcpserver_cpp.Common.{
  ℕ, suc, ◌+◌, ◌-◌, ◌*◌, Bool, true, false, Option, none, some, List, [], ◌∷◌, ◌++◌, ◌==◌, ltb,
  if◌then◌else◌, Bytes, c_str, length, take, Outcome, ok, abort, ◌>>=◌,
}

-- LOG_SIZE and MAX_FILE_LEN.
abbrev pub log_size : ℕ
log_size = 4096

abbrev pub max_file_len : ℕ
max_file_len = 268435456

-- A `logst` is the text in its memory. `file` is what the open file holds, and `closed_files` what
-- stands in those before it; `ct` is the counter of threadFun.
pub record Logger : Type 0 where
  pub queue_lst : List Bytes
  pub pool : ℕ
  pub file : Option Bytes
  pub closed_files : List Bytes
  pub ct : ℕ

-- logst::init writes the time, `stamp`, and vsnprintf the message behind it as far as it fits, with
-- a 0 at its end.
unfoldable pub line_of : Bytes → Bytes → Bytes
line_of stamp text = stamp ++ take (log_size - length stamp - 1) (c_str text)

-- popSt takes an entry of the pool or makes one, pushSt gives it back.
unfoldable pub pop_st : Logger → Logger
pop_st l = record l { pool = l.pool - 1 }

pub push_st : Logger → Logger
push_st l = record l { pool = l.pool + 1 }

unfoldable pub append_log : Bytes → Logger → Logger
append_log line l = record l { queue_lst = l.queue_lst ++ (line ∷ []) }

-- logger::info, which LOG stands for. `text` is the formatted message.
unfoldable pub info : Bytes → Bytes → Logger → Logger
info stamp text l = append_log (line_of stamp text) (pop_st l)

-- DoOpen: the open file is closed, and a new one begun; `opened` tells whether fopen succeeds.
pub do_open : Bool → Logger → Logger
do_open opened l = record l {
  closed_files = elim l.file [ none ↦ l.closed_files | some text ↦ l.closed_files ++ (text ∷ []) ];
  file = if opened then some [] else none;
}

-- fwrite of a line and of the newline. There must be a file.
pub write_line : Bytes → Logger → Outcome Logger
write_line line l = elim l.file [
  | none ↦ abort
  | some text ↦
      ok (push_st (record l { file = some (text ++ (c_str line ++ (b'\n' ∷ []))); ct = suc l.ct }))
]

pub write_lines : List Bytes → Logger → Outcome Logger
write_lines [] l = ok l
write_lines (line ∷ lines) l = write_line line l >>= λ l'. write_lines lines l'

-- The end of a round: a new file after so many lines.
pub rotate : Bool → Logger → Logger
rotate opened l = if ltb max_file_len l.ct then record (do_open opened l) { ct = 0 } else l

-- One round of threadFun. It takes the whole queue first, and writes it out then.
pub thread_round : Bool → Logger → Outcome Logger
thread_round opened l =
    write_lines l.queue_lst (record l { queue_lst = [] }) >>= λ l'. ok (rotate opened l')
