-- ===== src/Machine/Frame.antt =====
-- What a run leaves alone: the driver's globals, its driver object, and the requests completed.
use guypervisor.Base.{
  ℕ, Bool, true, false, ◌≡◌, refl, ◌∙◌, List, [], ◌∷◌, Option, none, some, if◌then◌else◌,
}
use guypervisor.Machine.{Call, Trace, Platform, World, ProcessorContext, complete_request}
use guypervisor.Machine.Run.{
  Run, done, crash, in_guest, enter_guest, out_of_fuel, Io, pure, and_then, ◌>>=◌, ◌>>◌, log, ask,
  attempt, issue, read_table, load_field, the_context,
}
use guypervisor.Machine.Ends.{Ends, ends, enters}

-- The requests completed, the last one first.
abbrev pub completions : Trace → List ℕ
completions [] = []
completions (complete_request irp s ∷ t) = irp ∷ completions t
completions (_ ∷ t) = completions t

pub record IsSame (w w' : World) : Type 0 where
  pub context : w'.context ≡ w.context
  pub device : w'.device ≡ w.device
  pub driver : w'.driver ≡ w.driver
  pub completed : completions w'.trace ≡ completions w.trace

pub IsSame-refl : (w : World) → IsSame w w
IsSame-refl w = record { context = refl; device = refl; driver = refl; completed = refl }

pub IsSame-trans : {u v w : World} → IsSame u v → IsSame v w → IsSame u w
IsSame-trans a b = record {
  context = b.context ∙ a.context;
  device = b.device ∙ a.device;
  driver = b.driver ∙ a.driver;
  completed = b.completed ∙ a.completed;
}

-- However the run ends, it ends in a world that is the same.
pub data EndsSame {A : Type 0} (w : World) : Run A → Type 0 where
  done_same : {a : A} {w' : World} → IsSame w w' → EndsSame w (done a w')
  crash_same : {w' : World} → IsSame w w' → EndsSame w (crash w')
  guest_same : {w' : World} → IsSame w w' → EndsSame w (in_guest w')
  fuel_same : EndsSame w out_of_fuel

-- A computation that leaves alone what `IsSame` names, wherever it is started.
pub data IsFramed {A : Type 0} (m : Io A) : Type 0 where
  framed : ((w : World) → EndsSame w (m w)) → IsFramed m

module _ {A : Type 0} where
  pub run_framed : {m : Io A} → IsFramed m → (w : World) → EndsSame w (m w)
  run_framed (framed f) = f

  EndsSame-trans : {u v : World} {r : Run A} → IsSame u v → EndsSame v r → EndsSame u r
  EndsSame-trans s (done_same h) = done_same (IsSame-trans s h)
  EndsSame-trans s (crash_same h) = crash_same (IsSame-trans s h)
  EndsSame-trans s (guest_same h) = guest_same (IsSame-trans s h)
  EndsSame-trans s fuel_same = fuel_same

  -- A run that returns or gives the processor to the guest does so in a world that is the same.
  pub Ends-IsSame :
      {P : A → World → Type 0} {Q : World → Type 0} {w : World} {r : Run A}
      → Ends P Q r
      → EndsSame w r
      → Ends (λ a w'. P a w' × IsSame w w') (λ w'. Q w' × IsSame w w') r
  Ends-IsSame (ends h) (done_same s) = ends (h, s)
  Ends-IsSame (enters h) (guest_same s) = enters (h, s)

  pub pure-IsFramed : (a : A) → IsFramed (pure a)
  pure-IsFramed a = framed (λ w. done_same (IsSame-refl w))

  pub if-IsFramed :
      (b : Bool) {m n : Io A} → IsFramed m → IsFramed n → IsFramed (if b then m else n)
  if-IsFramed true f g = f
  if-IsFramed false f g = g

module _ {A B : Type 0} where
  and_then-EndsSame :
      {w : World} {r : Run A} {k : A → Io B}
      → EndsSame w r
      → ((a : A) → IsFramed (k a))
      → EndsSame w (and_then r k)
  and_then-EndsSame (done_same h) f = EndsSame-trans h (run_framed (f _) _)
  and_then-EndsSame (crash_same h) f = crash_same h
  and_then-EndsSame (guest_same h) f = guest_same h
  and_then-EndsSame fuel_same f = fuel_same

  pub bind-IsFramed :
      {m : Io A} {k : A → Io B} → IsFramed m → ((a : A) → IsFramed (k a)) → IsFramed (m >>= k)
  bind-IsFramed f g = framed (λ w. and_then-EndsSame (run_framed f w) g)

  pub then-IsFramed : {m : Io A} {n : Io B} → IsFramed m → IsFramed n → IsFramed (m >> n)
  then-IsFramed f g = bind-IsFramed f (λ _. g)

-- Whether a call completes a request.
abbrev pub completes : Call → Bool
completes (complete_request irp s) = true
completes _ = false

completions-other :
    (c : Call) (t : Trace) → completes c ≡ false → completions (c ∷ t) ≡ completions t
completions-other (complete_request irp s) t e = cc
completions-other Call.read_cr0 t e = refl
completions-other _ t e = refl

log-IsSame : (c : Call) (w : World) → completes c ≡ false → IsSame w (log c w)
log-IsSame c w e = record {
  context = refl;
  device = refl;
  driver = refl;
  completed = completions-other c w.trace e;
}

pub ask-IsFramed : (p : Platform) (c : Call) → completes c ≡ false → IsFramed (ask p c)
ask-IsFramed p c e = framed (λ w. done_same (log-IsSame c w e))

pub attempt-IsFramed : (p : Platform) (c : Call) → completes c ≡ false → IsFramed (attempt p c)
attempt-IsFramed p c e = framed (λ w. done_same (log-IsSame c w e))

pub issue-IsFramed : (c : Call) → completes c ≡ false → IsFramed (issue c)
issue-IsFramed c e = framed (λ w. done_same (log-IsSame c w e))

pub read_table-IsFramed :
    (p : Platform) (c : Call) → completes c ≡ false → IsFramed (read_table p c)
read_table-IsFramed p c e = framed (λ w. done_same (log-IsSame c w e))

pub load_field-IsFramed :
    (p : Platform) (c : Call) (old : ℕ) → completes c ≡ false → IsFramed (load_field p c old)
load_field-IsFramed p c old e = framed (λ w. done_same (log-IsSame c w e))

pub the_context-IsFramed : IsFramed the_context
the_context-IsFramed = framed (λ w. go w.context w)
  where
    go :
        (c : Option ProcessorContext) (w : World)
        → EndsSame w (elim c [ none ↦ crash w | some k ↦ done k w ])
    go none w = crash_same (IsSame-refl w)
    go (some k) w = done_same (IsSame-refl w)

pub out_of_fuel-IsFramed : {A : Type 0} → IsFramed {A = A} (λ _. out_of_fuel)
out_of_fuel-IsFramed = framed (λ w. fuel_same)

pub enter_guest-IsFramed : {A : Type 0} → IsFramed {A = A} enter_guest
enter_guest-IsFramed = framed (λ w. guest_same (IsSame-refl w))

pub ruleset frames = (
  enter_guest-IsFramed, pure-IsFramed, if-IsFramed, bind-IsFramed, then-IsFramed, ask-IsFramed,
  attempt-IsFramed, issue-IsFramed, read_table-IsFramed, load_field-IsFramed, the_context-IsFramed,
  refl,
)
