-- ===== src/Main/Binary.antt =====
-- What the whole program does to binary files.
use rrep.Base.{
  ℕ, ◌≡◌, ◌<◌, length, sym, refl, ◌∙◌, ap, Bool, false, ◌&&◌, not, List, inl, inr, if_both,
  Bool-cases,
}
use mathlib.Core.List.{map}
use mathlib.Core.Path.{subst}
use rrep.Options.{Options}
use rrep.Messages.{ErrCode}
use rrep.Bufferio.{File, Reader}
use rrep.Bufferio.Memory.{Block}
use rrep.Heap.{Heap}
use rrep.Pattern.{Engine, Pattern}
use rrep.Pattern.Regex.{IsLawful}
use rrep.Replacement.{Replace}
use rrep.EachLine.{Ended}
use rrep.Replace.{Sink, LineEnd}
use rrep.World.{Name}
use rrep.ProcessFile.Effects.{rrep_error_files}
use rrep.Names.{Excludes}
use rrep.Walk.{Walk, rrep_error}
use rrep.FileList.Ends.{IsLarge}
use rrep.FileList.Binary.{IsBinary, process_file_list_binary}
use rrep.Main.DryRun.{after_stdin-KeepsFiles}
use rrep.CommandLine.{Args, initial, parse_options}
use rrep.CommandLine.Bits.{all_bits, parse_options_bits}
use rrep.Main.Steps.{MainSteps, after_options-P}
use rrep.Main.{Input, Outcome, print_dry, from_stdin, after_stdin, process, main}

-- At the end every file that holds a NUL is that of the state.
abbrev KeepsBinary : Walk → Outcome → Type 0
KeepsBinary s x =
    (path : Name) → IsBinary (s.world.files path) → x.state.world.files path ≡ s.world.files path

fails-KeepsBinary :
    (o : Options) (e : ErrCode) (name : Name) (s : Walk)
    → (path : Name) → IsBinary (s.world.files path)
    → (rrep_error o e name s).world.files path ≡ s.world.files path
fails-KeepsBinary o e name s path b = ap (λ files. files path) (rrep_error_files o e name s.world)

print_dry_kept :
    (o : Options) (s : Walk)
    → ((path : Name) → (print_dry o s).world.files path ≡ s.world.files path)
      × (IsLarge s → IsLarge (print_dry o s))
unfolding print_dry
print_dry_kept o s = elim (Bool-cases (o.dry && not o.quiet)) [
  | inl h ↦ rw h (λ path. refl, λ big. big)
  | inr h ↦ rw h (λ path. refl, λ big. big)
]

module _ (E : Engine) (lawful : IsLawful E) (X : Excludes) (alloc : ℕ → Bool) (regex_size : ℕ)
    (garbage : Block) (heap : Heap) (input : Input) where
  after_stdin-KeepsBinary :
      (o : Options) (s : Walk) (x : Ended Sink (Sink × LineEnd) × Reader × File)
      → KeepsBinary s (after_stdin E X alloc regex_size garbage heap input o s x)
  after_stdin-KeepsBinary o s x path b =
      after_stdin-KeepsFiles E X alloc regex_size garbage heap input o s x path

  module _ (a : Args X) (text : a.options.binary ≡ false) (bare : a.options.backup ≡ false) where
    process-KeepsBinary :
        (no_backups : Bool) (list : List Name) (p : Pattern E) (r : Replace) (s : Walk)
        → 0 < length p.string
        → IsLarge s
        → KeepsBinary s (process E X alloc regex_size garbage heap input a no_backups list p r s)
    unfolding process
    process-KeepsBinary no_backups list p r s pos big =
        if_both (KeepsBinary s) (from_stdin list) (λ _. after_stdin-KeepsBinary a.options s _)
          (λ _ path b.
            let (same, large) = print_dry_kept a.options s in
            process_file_list_binary E lawful X alloc no_backups a.options p r a.included a.excluded
              a.excluded_dirs pos text bare input.opens (map input.lstat list)
              (print_dry a.options s) path (large big) (subst IsBinary (sym (same path)) b)
            ∙ same path)

    spares_steps : MainSteps E X alloc regex_size garbage heap input a KeepsBinary
    spares_steps = record {
      fails = λ e name s. fails-KeepsBinary a.options e name s;
      bad_regex = λ e s path b. refl;
      hint = λ s path b. refl;
      quits = λ s path b. refl;
      gives_up = λ s path b. refl;
      is_wild = λ s path b. refl;
      buffered = λ s x h. h;
      processed = process-KeepsBinary;
    }

  -- Where regexec keeps to its interface and neither --binary nor --backup is among the options: every
  -- file that holds a NUL has at the end the content that it had, whatever the other options, the
  -- arguments and the answers of the system are and however the program ends.
  pub main_binary :
      (s : Walk) (path : Name)
      → (all_bits input.events).binary ≡ false
      → (all_bits input.events).backup ≡ false
      → IsBinary (s.world.files path)
      → (main E X alloc regex_size garbage heap input s).state.world.files path ≡ s.world.files path
  unfolding main
  main_binary s path t b =
      after_options-P E X alloc regex_size garbage heap input
        (parse_options X input.events (initial X input.environment)) KeepsBinary
        (spares_steps (parse_options X input.events (initial X input.environment))
          (ap (λ (o : Options). o.binary) options ∙ t) (ap (λ (o : Options). o.backup) options ∙ b))
        _ path
    where
      options :
          (parse_options X input.events (initial X input.environment)).options
          ≡ all_bits input.events
      options = parse_options_bits X input.events (initial X input.environment)
