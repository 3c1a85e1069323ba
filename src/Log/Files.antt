-- ===== src/Log/Files.antt =====
-- log.cpp: every line reaches the files, in the order of the calls of LOG.
use kcpserver_cpp.Common.{
  suc, ◌≡◌, refl, sym, ap, ◌∙◌, inl, inr, true, Bool-cases, Option, none, some, List, [], ◌∷◌, ◌++◌,
  Bytes, c_str, append-nil, append_assoc, Outcome, ok, ◌>>=◌, ltb,
}
use kcpserver_cpp.Log.{
  Logger, max_file_len, line_of, append_log, info, do_open, write_line, write_lines, rotate,
  thread_round, push_st, pop_st,
}

-- The lines of a log as one text, and all that has reached the files.
abbrev pub text_of : List Bytes → Bytes
text_of [] = []
text_of (line ∷ lines) = c_str line ++ (b'\n' ∷ text_of lines)

abbrev concat : List Bytes → Bytes
concat [] = []
concat (text ∷ texts) = text ++ concat texts

abbrev pub written : Logger → Bytes
written l = concat l.closed_files ++ (elim l.file [ none ↦ [] | some text ↦ text ])

-- What happens to a logger: a call of LOG, with the time and the message, or a round of its thread.
pub data Action : Type 0 where
  log : Bytes → Bytes → Action
  round : Action

abbrev pub act : Action → Logger → Outcome Logger
act (log stamp text) l = ok (info stamp text l)
act round l = thread_round true l

abbrev pub run : List Action → Logger → Outcome Logger
run [] l = ok l
run (a ∷ acts) l = act a l >>= λ l'. run acts l'

-- The lines of the calls of LOG, in their order.
abbrev pub logged : List Action → List Bytes
logged [] = []
logged (log stamp text ∷ acts) = line_of stamp text ∷ logged acts
logged (round ∷ acts) = logged acts

text_of-append : (xs ys : List Bytes) → text_of (xs ++ ys) ≡ text_of xs ++ text_of ys
text_of-append [] ys = refl
text_of-append (x ∷ xs) ys =
    ap (λ (t : Bytes). c_str x ++ (b'\n' ∷ t)) (text_of-append xs ys)
    ∙ sym (append_assoc (c_str x) (b'\n' ∷ text_of xs) (text_of ys))

concat-append : (xs : List Bytes) (b : Bytes) → concat (xs ++ (b ∷ [])) ≡ concat xs ++ b
concat-append [] b = append-nil b
concat-append (x ∷ xs) b =
    ap (λ (t : Bytes). x ++ t) (concat-append xs b) ∙ sym (append_assoc x (concat xs) b)

-- A line that is written to the open file `f`.
line_written : Bytes → Bytes → Logger → Logger
line_written line f l =
    push_st (record l { file = some (f ++ (c_str line ++ (b'\n' ∷ []))); ct = suc l.ct })

write_line-ok :
    (line f : Bytes) (l : Logger) → l.file ≡ some f → write_line line l ≡ ok (line_written line f l)
unfolding write_line line_written
write_line-ok line f l e = rw (write_line, e)

write_lines-ok :
    (lines : List Bytes) (f : Bytes) (l : Logger)
    → l.file ≡ some f
    → (l' : Logger) × (write_lines lines l ≡ ok l')
      × (l'.file ≡ some (f ++ text_of lines))
      × (l'.closed_files ≡ l.closed_files)
      × (l'.queue_lst ≡ l.queue_lst)
unfolding write_lines line_written push_st
write_lines-ok [] f l e = (l, refl, e ∙ ap some (sym (append-nil f)), refl, refl)
write_lines-ok (x ∷ xs) f l e =
    let tail = c_str x ++ (b'\n' ∷ []) in
    let (l', r, file, closed, queue) = write_lines-ok xs (f ++ tail) (line_written x f l) refl in
    let split : (f ++ tail) ++ text_of xs ≡ f ++ text_of (x ∷ xs) =
      append_assoc f tail (text_of xs)
      ∙ ap (λ (t : Bytes). f ++ t) (append_assoc (c_str x) (b'\n' ∷ []) (text_of xs)) in
    (l', rw (write_lines, write_line-ok x f l e) r, file ∙ ap some split, closed, queue)

-- A new file or not: all that was written stays.
rotate-written :
    (f : Bytes) (l : Logger)
    → l.file ≡ some f
    → let l' = rotate true l in
      ((f' : Bytes) × (l'.file ≡ some f'))
      × (written l' ≡ concat l.closed_files ++ f)
      × (l'.queue_lst ≡ l.queue_lst)
unfolding rotate do_open
rotate-written f l e = elim (Bool-cases (ltb max_file_len l.ct)) [
  | inl t ↦
      rw (rotate, do_open, t, e) (([], refl), append-nil _ ∙ concat-append l.closed_files f, refl)
  | inr n ↦ rw (rotate, n) ((f, e), rw e, refl)
]

round-written :
    (f : Bytes) (l : Logger)
    → l.file ≡ some f
    → (l' : Logger) × (thread_round true l ≡ ok l')
      × ((f' : Bytes) × (l'.file ≡ some f'))
      × (written l' ++ text_of l'.queue_lst ≡ written l ++ text_of l.queue_lst)
      × (l'.queue_lst ≡ [])
unfolding thread_round
round-written f l e =
    let (l', r, file, closed, queue) =
      write_lines-ok l.queue_lst f (record l { queue_lst = [] }) e in
    let (has, text, queue') = rotate-written (f ++ text_of l.queue_lst) l' file in
    let all =
      ap (λ (t : Bytes). t ++ text_of (rotate true l').queue_lst) text
      ∙ ap (λ (q : List Bytes). (concat l'.closed_files ++ (f ++ text_of l.queue_lst)) ++ text_of q)
          (queue' ∙ queue)
      ∙ append-nil _
      ∙ ap (λ (c : List Bytes). concat c ++ (f ++ text_of l.queue_lst)) closed
      ∙ sym (append_assoc (concat l.closed_files) f (text_of l.queue_lst))
      ∙ ap
          (λ (o : Option Bytes).
            concat l.closed_files ++ (elim o [ none ↦ [] | some x ↦ x ]) ++ text_of l.queue_lst)
          (sym e) in
    (rotate true l', rw (thread_round, r), has, all, queue' ∙ queue)

act-text :
    (a : Action) (acts : List Action) (f : Bytes) (l : Logger)
    → l.file ≡ some f
    → (l' : Logger) × (act a l ≡ ok l')
      × ((f' : Bytes) × (l'.file ≡ some f'))
      × ((written l' ++ text_of l'.queue_lst) ++ text_of (logged acts)
          ≡ (written l ++ text_of l.queue_lst) ++ text_of (logged (a ∷ acts)))
unfolding info append_log pop_st
act-text (log stamp text) acts f l e =
    let line = line_of stamp text in
    let more = text_of-append l.queue_lst (line ∷ []) in
    let rest = text_of (logged acts) in
    (
      info stamp text l,
      refl,
      (f, e),
      ap (λ (t : Bytes). (written l ++ t) ++ rest) more ∙ simp append_assoc,
    )
act-text round acts f l e =
    let (l', r, has, same, none_left) = round-written f l e in
    (l', r, has, ap (λ (t : Bytes). t ++ text_of (logged acts)) same)

run-text :
    (acts : List Action) (f : Bytes) (l : Logger)
    → l.file ≡ some f
    → (l' : Logger) × (run acts l ≡ ok l')
      × ((f' : Bytes) × (l'.file ≡ some f'))
      × (written l' ++ text_of l'.queue_lst
          ≡ (written l ++ text_of l.queue_lst) ++ text_of (logged acts))
run-text [] f l e = (l, refl, (f, e), sym (append-nil _))
run-text (a ∷ acts) f l e =
    let (l₁, r, (f₁, e₁), same) = act-text a acts f l e in
    let (l₂, r₂, has, all) = run-text acts f₁ l₁ e₁ in (l₂, rw r r₂, has, all ∙ same)

-- The log keeps to its abstract view, a text that only grows at its end. If a logger has an open
-- file and every new one can be opened, any sequence of calls of LOG and rounds of the log thread
-- returns; what then stands in its files and waits in its queue is what was there before, followed
-- by the lines of the calls in their order; and one more round leaves all of it in the files, with
-- an empty queue, also across a change of the file.
pub log_refines :
    (acts : List Action) (f : Bytes) (l : Logger)
    → l.file ≡ some f
    → let all = (written l ++ text_of l.queue_lst) ++ text_of (logged acts) in
      (l' : Logger) × (run acts l ≡ ok l')
      × (written l' ++ text_of l'.queue_lst ≡ all)
      × ((l'' : Logger) × (thread_round true l' ≡ ok l'')
          × (written l'' ≡ all)
          × (l''.queue_lst ≡ []))
log_refines acts f l e =
    let (l₁, r₁, (f₁, e₁), all) = run-text acts f l e in
    let (l₂, r₂, has, same, empty) = round-written f₁ l₁ e₁ in
    let flat =
      sym (append-nil (written l₂))
      ∙ ap (λ (q : List Bytes). written l₂ ++ text_of q) (sym empty) in
    (l₁, r₁, all, (l₂, r₂, flat ∙ (same ∙ all), empty))
