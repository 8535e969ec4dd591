-- ===== src/Value/Utf8.antt =====
-- std::str::from_utf8, as the automaton of the Unicode standard's table of well-formed sequences.
use loro_c.Base.{
  ℕ, ◌-◌, ◌==◌, ltb, leb, if◌then◌else◌, Bool, false, ◌&&◌, Option, none, some, List, [], ◌∷◌,
}

-- How many bytes the current sequence still wants, and the range of the next one.
pub record Expects : Type 0 where
  pub remaining : ℕ
  pub low : ℕ
  pub high : ℕ

abbrev at_boundary : Expects
at_boundary = record { remaining = 0; low = 0; high = 0 }

abbrev wants : ℕ → ℕ → ℕ → Option Expects
wants n low high = some (record { remaining = n; low = low; high = high })

-- The first byte of a sequence: no overlong form, no surrogate, nothing above U+10FFFF.
unfoldable lead : ℕ → Option Expects
lead c =
    if ltb c 0x80
    then some at_boundary
    else if ltb c 0xC2
    then none
    else if ltb c 0xE0
    then wants 1 0x80 0xBF
    else if c == 0xE0
    then wants 2 0xA0 0xBF
    else if c == 0xED
    then wants 2 0x80 0x9F
    else if ltb c 0xF0
    then wants 2 0x80 0xBF
    else if c == 0xF0
    then wants 3 0x90 0xBF
    else if ltb c 0xF4
    then wants 3 0x80 0xBF
    else if c == 0xF4
    then wants 3 0x80 0x8F
    else none

unfoldable pub advance : Expects → ℕ → Option Expects
unfolding lead
advance s c =
    if s.remaining == 0
    then lead c
    else if leb s.low c && leb c s.high
    then (if s.remaining == 1 then some at_boundary else wants (s.remaining - 1) 0x80 0xBF)
    else none

unfoldable pub accepts : Expects → List ℕ → Bool
accepts s [] = s.remaining == 0
accepts s (c ∷ cs) = elim (advance s c) [ none ↦ false | some s' ↦ accepts s' cs ]

unfoldable pub from_utf8 : List ℕ → Bool
from_utf8 bytes = accepts at_boundary bytes
