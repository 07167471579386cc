-- ===== src/Serial/Com.antt =====
-- A serial port in memory that behaves as Port says, for the tests.
use new_attempt.Serial.Port.{waiting, IsPort, Port}
use new_attempt.Serial.{com1_mcr, com1_fcr, com1_ier, com1_lcr, com1_data, com1_lsr}
use new_attempt.Base.{
  ◌⊎◌, ◌∙◌, inr, refl, inl, ◌/◌, ◌==◌, arith, Bool-cases, ◌∷◌, ◌%◌, if◌then◌else◌, ◌≡◌, List, ◌<◌,
  ℕ, Bool, suc, [], ◌++◌, ◌+◌, true, false,
}

-- The transmitter is busy for one poll after a byte.
pub record Com : Type 0 where
  pub busy : Bool
  pub out : List ℕ
  pub incoming : List ℕ
  pub latch : Bool

abbrev pub view : Com → Port
view c = record {
  wait = if c.busy then 1 else 0;
  out = c.out;
  incoming = c.incoming;
  latch = c.latch;
}

abbrev pub inb : Com → ℕ → ℕ × Com
inb c port =
    if port == com1_lsr
    then ((if c.busy then 0 else 0x20) + waiting c.incoming, record c { busy = false })
    else elim c.incoming [ [] ↦ (0, c) | b ∷ bs ↦ (b, record c { incoming = bs }) ]

abbrev pub outb : Com → ℕ → ℕ → Com
outb c port value =
    if port == com1_data
    then (if c.latch then c else record c { busy = true; out = c.out ++ (value ∷ []) })
    else if port == com1_lcr
    then record c { latch = value / 0x80 % 2 == 1 }
    else c

ready : (c : Com) → (view c).wait < 3
ready c = elim (Bool-cases c.busy) [ inl e ↦ rw e (omega arith) | inr e ↦ rw e (omega arith) ]

-- The line status of a busy or free transmitter.
line_status : Bool → List ℕ → ℕ
line_status b bs = (if b then 0 else 0x20) + waiting bs

line_status_lem :
    (b : Bool) (bs : List ℕ)
    → (line_status b bs % 2 ≡ waiting bs) × (line_status b bs / 0x20 % 2 ≡ (if b then 0 else 1))
unfolding line_status
line_status_lem true [] = (refl, refl)
line_status_lem true (b ∷ bs) = (refl, refl)
line_status_lem false [] = (refl, refl)
line_status_lem false (b ∷ bs) = (refl, refl)

busy_lem :
    (c : Com) (n : ℕ)
    → (view c).wait ≡ suc n
    → ((inb c com1_lsr).0 / 0x20 % 2 ≡ 0) × (view (inb c com1_lsr).1 ≡ record (view c) { wait = n })
unfolding line_status
busy_lem c n e = elim (Bool-cases c.busy) [
  | inl b ↦
      let z : n ≡ 0 = ground arith in ((line_status_lem c.busy c.incoming).1 ∙ rw b refl, rw z refl)
  | inr b ↦ absurd (ground arith)
]

free_lem :
    (c : Com)
    → (view c).wait ≡ 0
    → ((inb c com1_lsr).0 / 0x20 % 2 ≡ 1) × (view (inb c com1_lsr).1 ≡ view c)
unfolding line_status
free_lem c e = elim (Bool-cases c.busy) [
  | inl b ↦ absurd (ground arith)
  | inr b ↦ ((line_status_lem c.busy c.incoming).1 ∙ rw b refl, rw b refl)
]

status : (c : Com) → (inb c com1_lsr).0 % 2 ≡ waiting (view c).incoming
unfolding line_status
status c = (line_status_lem c.busy c.incoming).0

others_lem :
    (c : Com) (port v : ℕ)
    → (port ≡ com1_ier) ⊎ (port ≡ com1_fcr) ⊎ (port ≡ com1_mcr)
    → ((view (outb c port v)).out ≡ (view c).out) × ((view (outb c port v)).latch ≡ (view c).latch)
others_lem c port v (inl e) = rw e (refl, refl)
others_lem c port v (inr (inl e)) = rw e (refl, refl)
others_lem c port v (inr (inr e)) = rw e (refl, refl)

pub behaves : IsPort inb outb view 3
behaves = record {
  ready = ready;
  busy = busy_lem;
  free = free_lem;
  status = status;
  status_keeps = λ c. (refl, refl);
  receive = λ c b bs off e. rw e (refl, refl, off);
  send = λ c b off e. rw off (refl, refl, refl);
  divisor = λ c b on. rw on (refl, refl);
  line_control = λ c v. (refl, refl);
  others = others_lem;
}
