-- ===== src/Main/DryRun.antt =====
-- A dry run of the whole program.
use rrep.Base.{
  ℕ, ◌≡◌, refl, ◌∙◌, ap, Bool, true, false, ◌&&◌, not, List, inl, inr, if_both, Bool-cases,
}
use mathlib.Core.List.{map}
use rrep.Options.{Options}
use rrep.Messages.{ErrCode}
use rrep.Bufferio.{File, Reader}
use rrep.Bufferio.Memory.{Block}
use rrep.Heap.{Heap}
use rrep.Pattern.{Engine, Pattern}
use rrep.Replacement.{Replace}
use rrep.EachLine.{Ended, done, returned, failed, starved}
use rrep.Replace.{Sink, LineEnd, flushed, write_failed, regex_failed, out_of_rounds}
use rrep.World.{Name}
use rrep.ProcessFile.Effects.{rrep_error_files}
use rrep.Names.{Excludes}
use rrep.Walk.{Walk, rrep_error}
use rrep.FileList.DryRun.{process_file_list_dry}
use rrep.CommandLine.{Args, initial, parse_options}
use rrep.CommandLine.Bits.{all_bits, parse_options_bits}
use rrep.Main.Steps.{MainSteps, after_options-P}
use rrep.Main.{Input, Outcome, print_dry, from_stdin, after_stdin, process, main}

-- At the end the files are those of the state.
abbrev pub KeepsFiles : Walk → Outcome → Type 0
KeepsFiles s x = (path : Name) → x.state.world.files path ≡ s.world.files path

fails-KeepsFiles :
    (o : Options) (e : ErrCode) (name : Name) (s : Walk)
    → (path : Name) → (rrep_error o e name s).world.files path ≡ s.world.files path
fails-KeepsFiles o e name s path = ap (λ files. files path) (rrep_error_files o e name s.world)

print_dry_files :
    (o : Options) (s : Walk) (path : Name) → (print_dry o s).world.files path ≡ s.world.files path
unfolding print_dry
print_dry_files o s path = elim (Bool-cases (o.dry && not o.quiet)) [ inl h ↦ rw h | inr h ↦ rw h ]

module _ (E : Engine) (X : Excludes) (alloc : ℕ → Bool) (regex_size : ℕ) (garbage : Block)
    (heap : Heap) (input : Input) where
  pub after_stdin-KeepsFiles :
      (o : Options) (s : Walk) (x : Ended Sink (Sink × LineEnd) × Reader × File)
      → KeepsFiles s (after_stdin E X alloc regex_size garbage heap input o s x)
  unfolding after_stdin
  after_stdin-KeepsFiles o s (done sink, reader, f) path = refl
  after_stdin-KeepsFiles o s (failed sink e, reader, f) path = fails-KeepsFiles o e _ s path
  after_stdin-KeepsFiles o s (returned (sink, regex_failed e), reader, f) path = refl
  after_stdin-KeepsFiles o s (returned (sink, write_failed), reader, f) path =
      fails-KeepsFiles o _ _ s path
  after_stdin-KeepsFiles o s (returned (sink, flushed), reader, f) path = refl
  after_stdin-KeepsFiles o s (returned (sink, out_of_rounds), reader, f) path = refl
  after_stdin-KeepsFiles o s (starved, reader, f) path = refl

  module _ (a : Args X) (dry : a.options.dry ≡ true) (loud : a.options.quiet ≡ false) where
    process-KeepsFiles :
        (no_backups : Bool) (list : List Name) (p : Pattern E) (r : Replace) (s : Walk)
        → KeepsFiles s (process E X alloc regex_size garbage heap input a no_backups list p r s)
    unfolding process
    process-KeepsFiles no_backups list p r s =
        if_both (KeepsFiles s) (from_stdin list) (λ _. after_stdin-KeepsFiles a.options s _)
          (λ _ path.
            process_file_list_dry E X alloc no_backups a.options p r a.included a.excluded
              a.excluded_dirs dry loud input.opens (map input.lstat list) (print_dry a.options s)
              path
            ∙ print_dry_files a.options s path)

    dry-MainSteps : MainSteps E X alloc regex_size garbage heap input a KeepsFiles
    dry-MainSteps = record {
      fails = λ e name s. fails-KeepsFiles a.options e name s;
      bad_regex = λ e s path. refl;
      hint = λ s path. refl;
      quits = λ s path. refl;
      gives_up = λ s path. refl;
      is_wild = λ s path. refl;
      buffered = λ s x h. h;
      processed = λ b list p r s pos big. process-KeepsFiles b list p r s;
    }

  -- Where --dry-run is among the options, and neither -q nor --quiet nor --silent, the program changes
  -- no file, whatever its arguments and the answers of the system are and however it ends.
  pub main_dry :
      (s : Walk) (path : Name)
      → (all_bits input.events).dry ≡ true
      → (all_bits input.events).quiet ≡ false
      → (main E X alloc regex_size garbage heap input s).state.world.files path ≡ s.world.files path
  unfolding main
  main_dry s path d q =
      after_options-P E X alloc regex_size garbage heap input
        (parse_options X input.events (initial X input.environment)) KeepsFiles
        (dry-MainSteps (parse_options X input.events (initial X input.environment))
          (ap (λ (o : Options). o.dry) options ∙ d) (ap (λ (o : Options). o.quiet) options ∙ q))
        _ path
    where
      options :
          (parse_options X input.events (initial X input.environment)).options
          ≡ all_bits input.events
      options = parse_options_bits X input.events (initial X input.environment)
