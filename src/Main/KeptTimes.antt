-- ===== src/Main/KeptTimes.antt =====
-- The whole program with --keep-times and without a backup.
use rrep.Base.{
  ℕ, ◌≡◌, refl, sym, ◌∙◌, ap, Bool, true, false, ◌&&◌, not, List, [], ◌∷◌, inl, inr, if_both,
  Bool-cases, All,
}
use mathlib.Core.List.{map}
use mathlib.Core.Path.{subst}
use rrep.Options.{Options}
use rrep.Bufferio.{File, Reader}
use rrep.Bufferio.Memory.{Block}
use rrep.Heap.{Heap}
use rrep.Pattern.{Engine, Pattern}
use rrep.Replacement.{Replace}
use rrep.EachLine.{Ended, done, returned, failed, starved}
use rrep.Replace.{Sink, LineEnd, flushed, write_failed, regex_failed, out_of_rounds}
use rrep.World.{Name, Exit, success, failure, aborted, stuck}
use rrep.Names.{Excludes}
use rrep.Walk.{Walk}
use rrep.CommandLine.{Args, initial, parse_options}
use rrep.CommandLine.Bits.{all_bits, parse_options_bits}
use rrep.Main.Steps.{MainSteps, after_options-P}
use rrep.Main.{
  Input, MainExit, exits, undefined, Outcome, print_dry, from_stdin, after_stdin, process, main,
}
use rrep.Directories.Unmoved.{Unmoved, AnyEnd}
use rrep.Directories.Induction.{Ends}
use rrep.FileList.KeptTimes.{ArgumentKept, process_file_list-Unmoved}

-- The program ended by itself, where it was started, and no times have changed.
abbrev pub TimesKept : Walk → MainExit → Walk → Type 0
TimesKept s (exits success) t = Unmoved s true t
TimesKept s (exits failure) t = Unmoved s true t
TimesKept s (exits aborted) t = Unit
TimesKept s (exits stuck) t = Unit
TimesKept s undefined t = Unit

print_dry_same :
    (o : Options) (s : Walk) → ((print_dry o s).cwd ≡ s.cwd) × ((print_dry o s).times ≡ s.times)
unfolding print_dry
print_dry_same o s = elim (Bool-cases (o.dry && not o.quiet)) [
  | inl h ↦ rw h (refl, refl)
  | inr h ↦ rw h (refl, refl)
]

module _ (E : Engine) (X : Excludes) (alloc : ℕ → Bool) (regex_size : ℕ) (garbage : Block)
    (heap : Heap) (input : Input) (grants : (n : ℕ) → alloc n ≡ true)
    (kept : (name : Name) → ArgumentKept (all_bits input.events).backup (input.lstat name))
    (plain : (all_bits input.events).backup ≡ false) where
  -- The end of a program that was started in the directory of the start.
  abbrev KeptEnd : Walk → Outcome → Type 0
  KeptEnd s x = s.cwd ≡ [] → TimesKept s x.exit x.state

  after_stdin-TimesKept :
      (o : Options) (s : Walk) (x : Ended Sink (Sink × LineEnd) × Reader × File)
      → KeptEnd s (after_stdin E X alloc regex_size garbage heap input o s x)
  unfolding after_stdin
  after_stdin-TimesKept o s (done sink, reader, f) home = (refl, λ p. refl)
  after_stdin-TimesKept o s (failed sink x, reader, f) home = (refl, λ p. refl)
  after_stdin-TimesKept o s (returned (sink, regex_failed x), reader, f) home = (refl, λ p. refl)
  after_stdin-TimesKept o s (returned (sink, write_failed), reader, f) home = (refl, λ p. refl)
  after_stdin-TimesKept o s (returned (sink, flushed), reader, f) home = tt
  after_stdin-TimesKept o s (returned (sink, out_of_rounds), reader, f) home = tt
  after_stdin-TimesKept o s (starved, reader, f) home = tt

  module _ (a : Args X) (keep : a.options.keep_times ≡ true)
      (bit : a.options.backup ≡ (all_bits input.events).backup) where
    All-kept : (list : List Name) → All (ArgumentKept a.options.backup) (map input.lstat list)
    All-kept [] = tt
    All-kept (name ∷ list) =
        (subst (λ b. ArgumentKept b (input.lstat name)) (sym bit) (kept name), All-kept list)

    files-TimesKept :
        (s t : Walk) (x : Exit × Walk)
        → (t.cwd ≡ s.cwd) × (t.times ≡ s.times)
        → Ends Unmoved AnyEnd t x
        → TimesKept s (exits x.0) x.1
    files-TimesKept s t (success, u) (c, e) (h, k) = (h ∙ c, λ p. k p ∙ ap (λ times. times p) e)
    files-TimesKept s t (failure, u) (c, e) (h, k) = (h ∙ c, λ p. k p ∙ ap (λ times. times p) e)
    files-TimesKept s t (aborted, u) (c, e) h = tt
    files-TimesKept s t (stuck, u) (c, e) h = tt

    process-KeptEnd :
        (no_backups : Bool) (list : List Name) (p : Pattern E) (r : Replace) (s : Walk)
        → KeptEnd s (process E X alloc regex_size garbage heap input a no_backups list p r s)
    unfolding process
    process-KeptEnd no_backups list p r s =
        if_both (KeptEnd s) (from_stdin list) (λ _. after_stdin-TimesKept a.options s _)
          (λ _ home. files-TimesKept s (print_dry a.options s) _ (print_dry_same a.options s) (
            process_file_list-Unmoved E X alloc no_backups a.options p r a.included a.excluded
              a.excluded_dirs keep (bit ∙ plain) grants input.opens (map input.lstat list)
              (print_dry a.options s) ((print_dry_same a.options s).0 ∙ home) (All-kept list)))

    kept-MainSteps : MainSteps E X alloc regex_size garbage heap input a KeptEnd
    kept-MainSteps = record {
      fails = λ code name s home. (refl, λ p. refl);
      bad_regex = λ code s home. (refl, λ p. refl);
      hint = λ s home. (refl, λ p. refl);
      quits = λ s home. (refl, λ p. refl);
      gives_up = λ s home. tt;
      is_wild = λ s home. tt;
      buffered = λ s x h. h;
      processed = λ b list p r s pos big. process-KeptEnd b list p r s;
    }

  -- Where --keep-times is among the options and no option asks for a backup, malloc grants every size,
  -- the system lets the times of every argument and of every entry below be read and set and every way
  -- back be found, process_file changes the times of no other file unless it makes a backup, and the
  -- walk begins in the directory of the start: if the program ends with success or failure, no file or
  -- directory has other times than before, and the working directory is that of the start.
  pub main-TimesKept :
      (s : Walk)
      → (all_bits input.events).keep_times ≡ true
      → s.cwd ≡ []
      → TimesKept s
          (main E X alloc regex_size garbage heap input s).exit
          (main E X alloc regex_size garbage heap input s).state
  unfolding main
  main-TimesKept s k =
      after_options-P E X alloc regex_size garbage heap input
        (parse_options X input.events (initial X input.environment)) KeptEnd
        (kept-MainSteps (parse_options X input.events (initial X input.environment))
          (ap (λ (o : Options). o.keep_times)
              (parse_options_bits X input.events (initial X input.environment))
            ∙ k)
          (ap (λ (o : Options). o.backup)
            (parse_options_bits X input.events (initial X input.environment))))
        _
