-- ===== src/Main/Silence.antt =====
-- An exit status of success, and what the whole program has reported.
use rrep.Base.{ℕ, ◌≡◌, refl, ◌∙◌, ap, Bool, ◌&&◌, not, List, inl, inr, if_both, Bool-cases}
use mathlib.Core.List.{map}
use rrep.Options.{Options}
use rrep.Bufferio.{File, Reader}
use rrep.Bufferio.Memory.{Block}
use rrep.Heap.{Heap}
use rrep.Pattern.{Engine, Pattern}
use rrep.Replacement.{Replace}
use rrep.EachLine.{Ended, done, returned, failed, starved}
use rrep.Replace.{Sink, LineEnd, flushed, write_failed, regex_failed, out_of_rounds}
use rrep.World.{Name, Exit, success, failure}
use rrep.Names.{Excludes}
use rrep.Walk.{Walk}
use rrep.CommandLine.{Args, initial, parse_options}
use rrep.Main.Steps.{MainSteps, after_options-P}
use rrep.Main.{
  Input, MainExit, exits, undefined, Outcome, print_dry, from_stdin, after_stdin, process, main,
}
use rrep.FileList.Silence.{process_file_list-silent}

-- With success nothing was reported.
abbrev pub SilentEnd : Walk → Outcome → Type 0
SilentEnd s x = x.exit ≡ exits success → x.state.world.reported ≡ s.world.reported

print_dry_reported : (o : Options) (s : Walk) → (print_dry o s).world.reported ≡ s.world.reported
unfolding print_dry
print_dry_reported o s = elim (Bool-cases (o.dry && not o.quiet)) [ inl h ↦ rw h | inr h ↦ rw h ]

exit_of : MainExit → Exit
exit_of (exits x) = x
exit_of undefined = failure

module _ (E : Engine) (X : Excludes) (alloc : ℕ → Bool) (regex_size : ℕ) (garbage : Block)
    (heap : Heap) (input : Input) where
  after_stdin-SilentEnd :
      (o : Options) (s : Walk) (x : Ended Sink (Sink × LineEnd) × Reader × File)
      → SilentEnd s (after_stdin E X alloc regex_size garbage heap input o s x)
  unfolding after_stdin
  after_stdin-SilentEnd o s (done sink, reader, f) e = refl
  after_stdin-SilentEnd o s (failed sink x, reader, f) e = absurd cc
  after_stdin-SilentEnd o s (returned (sink, regex_failed x), reader, f) e = absurd cc
  after_stdin-SilentEnd o s (returned (sink, write_failed), reader, f) e = absurd cc
  after_stdin-SilentEnd o s (returned (sink, flushed), reader, f) e = absurd cc
  after_stdin-SilentEnd o s (returned (sink, out_of_rounds), reader, f) e = absurd cc
  after_stdin-SilentEnd o s (starved, reader, f) e = absurd cc

  module _ (a : Args X) where
    process-SilentEnd :
        (no_backups : Bool) (list : List Name) (p : Pattern E) (r : Replace) (s : Walk)
        → SilentEnd s (process E X alloc regex_size garbage heap input a no_backups list p r s)
    unfolding process exit_of
    process-SilentEnd no_backups list p r s =
        if_both (SilentEnd s) (from_stdin list) (λ _. after_stdin-SilentEnd a.options s _)
          (λ _ e.
            process_file_list-silent E X alloc no_backups a.options p r a.included a.excluded
              a.excluded_dirs input.opens (map input.lstat list) (print_dry a.options s)
              (ap exit_of e)
            ∙ print_dry_reported a.options s)

    silent-MainSteps : MainSteps E X alloc regex_size garbage heap input a SilentEnd
    silent-MainSteps = record {
      fails = λ code name s e. absurd cc;
      bad_regex = λ code s e. absurd cc;
      hint = λ s e. absurd cc;
      quits = λ s e. refl;
      gives_up = λ s e. absurd cc;
      is_wild = λ s e. absurd cc;
      buffered = λ s x h. h;
      processed = λ b list p r s pos big. process-SilentEnd b list p r s;
    }

  -- If the program ends with success, it has reported no error: not for its options, not while it read
  -- standard input, not for a file and not in a directory.
  pub main-silent :
      (s : Walk)
      → (main E X alloc regex_size garbage heap input s).exit ≡ exits success
      → (main E X alloc regex_size garbage heap input s).state.world.reported ≡ s.world.reported
  unfolding main
  main-silent s =
      after_options-P E X alloc regex_size garbage heap input
        (parse_options X input.events (initial X input.environment)) SilentEnd
        (silent-MainSteps (parse_options X input.events (initial X input.environment))) _
