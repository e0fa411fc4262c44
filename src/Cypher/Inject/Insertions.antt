-- ===== src/Cypher/Inject/Insertions.antt =====
-- crates/rb-storage-neo4j/src/injector.rs: what the rewriting may change.
use mathlib.Core.List.{append-nil, append_assoc}
use rustacean.Common.{
  ℕ, zero, suc, ◌+◌, ◌/◌, ◌%◌, ◌<◌, ◌≡◌, refl, sym, ap, ◌∙◌, subst, ◌⊎◌, inl, inr, true, some, List,
  [], ◌∷◌, ◌++◌, length, ltb, if◌then◌else◌, arith,
}
use rustacean.Common.Every.{Every}
use rustacean.Common.Bytes.{codes}
use rustacean.Cypher.Inject.{
  Context, goes_on, Result, ok, err, start, turn, loop, inject_tenant_label,
}
use rustacean.Cypher.Inject.Total.{Turn-cases}
use rustacean.Cypher.Inject.Copies.{Inserts, done, keep, insert, Inserts-same, Inserts-append}
use rustacean.Cypher.Inject.Edits.{Edited, TurnEdits, turn-TurnEdits}

abbrev pub Ends : List ℕ → Type 0
Ends tail = (tail ≡ []) ⊎ (tail ≡ codes "]")

-- The output of the loop, as it grows.
abbrev Grows : List ℕ → List ℕ → List ℕ → List ℕ → Type 0
Grows ins out bytes out' =
    (more : List ℕ) × (tail : List ℕ) × (out' ≡ out ++ more)
    × Ends tail
    × Inserts ins (bytes ++ tail) more

out_of : Result → List ℕ
out_of (ok out) = out
out_of (err e) = []

ok-injective : {a b : List ℕ} → some (ok a) ≡ some (ok b) → a ≡ b
ok-injective e = cc

module _ (label : List ℕ) where
  turn-Edited :
      (c c' : Context) (b : ℕ) (rest pushed rest' : List ℕ)
      → turn label c b rest ≡ goes_on c' pushed rest'
      → Edited (b':' ∷ label) (b ∷ rest) pushed rest'
  turn-Edited c c' b rest pushed rest' e =
      subst (TurnEdits (b':' ∷ label) (b ∷ rest)) e (turn-TurnEdits label c b rest)

  Grows-turn :
      (out bytes pushed rest out' took : List ℕ)
      → bytes ≡ took ++ rest
      → Inserts (b':' ∷ label) took pushed
      → Grows (b':' ∷ label) (out ++ pushed) rest out'
      → Grows (b':' ∷ label) out bytes out'
  Grows-turn out bytes pushed rest out' took q i (more, tail, e, t, j) = (
    pushed ++ more,
    tail,
    e ∙ append_assoc out pushed more,
    t,
    rw (q, append_assoc) (Inserts-append i j),
  )

  loop-nil :
      (n : ℕ) (c : Context) (out out' : List ℕ)
      → loop n label c out [] ≡ some (ok out')
      → out' ≡ out
  unfolding loop
  loop-nil zero c out out' e = cc
  loop-nil (suc n) c out out' e = cc

  loop-Grows :
      (n : ℕ) (c : Context) (out bytes out' : List ℕ)
      → loop n label c out bytes ≡ some (ok out')
      → Grows (b':' ∷ label) out bytes out'
  unfolding loop
  loop-Grows zero c out bytes out' e = cc
  loop-Grows (suc n) c out [] out' e =
      ([], [], sym (ok-injective e) ∙ sym (append-nil out), inl refl, done)
  loop-Grows (suc n) c out (b ∷ rest) out' e = elim (Turn-cases (turn label c b rest)) [
    | inl (error, q) ↦ let failed : some (err error) ≡ some (ok out') = rw (q, loop) at e in cc
    | inr (c', pushed, rest', q) ↦
        let next : loop n label c' (out ++ pushed) rest' ≡ some (ok out') = rw (q, loop) at e in
        elim (turn-Edited c c' b rest pushed rest' q) [
          | inl (took, s, i) ↦
              Grows-turn out (b ∷ rest) pushed rest' out' took s i
                (loop-Grows n c' (out ++ pushed) rest' out' next)
          | inr (s, i) ↦
              (pushed, codes "]", loop-nil n c' (out ++ pushed) out' (rw s at next), inr refl, i)
        ]
  ]

-- UTF-8, of one code point and of a string.
abbrev pub utf8 : ℕ → List ℕ
utf8 c =
    if ltb c 0x80
    then c ∷ []
    else if ltb c 0x800
    then (0xc0 + c / 64) ∷ (0x80 + c % 64) ∷ []
    else if ltb c 0x10000
    then (0xe0 + c / 4096) ∷ (0x80 + c / 64 % 64) ∷ (0x80 + c % 64) ∷ []
    else (0xf0 + c / 262144) ∷ (0x80 + c / 4096 % 64) ∷ (0x80 + c / 64 % 64) ∷ (0x80 + c % 64) ∷ []

abbrev pub encode : List ℕ → List ℕ
encode [] = []
encode (c ∷ cs) = utf8 c ++ encode cs

encode-append : (cs bs : List ℕ) → encode (cs ++ bs) ≡ encode cs ++ encode bs
encode-append [] bs = refl
encode-append (c ∷ cs) bs =
    ap (λ es. utf8 c ++ es) (encode-append cs bs)
    ∙ sym (append_assoc (utf8 c) (encode cs) (encode bs))

Inserts-encode :
    {ins bytes out : List ℕ}
    → Inserts ins bytes out
    → Inserts (encode ins) (encode bytes) (encode out)
Inserts-encode done = done
Inserts-encode (keep b i) = Inserts-append (Inserts-same (utf8 b)) (Inserts-encode i)
Inserts-encode {ins} (insert {bytes} {out} i) =
    subst (Inserts (encode ins) (encode bytes)) (sym (encode-append ins out))
      (insert (Inserts-encode i))

abbrev pub IsAscii : List ℕ → Type 0
IsAscii = Every (λ c. c < 0x80)

encode-ascii : (cs : List ℕ) → IsAscii cs → encode cs ≡ cs
encode-ascii [] h = refl
encode-ascii (c ∷ cs) h =
    let q : ltb c 0x80 ≡ true = ground (arith, h.0) in
    rw q (ap (λ cs. c ∷ cs) (encode-ascii cs h.1))

-- The code points of the output.
pub loop-Inserts :
    (cypher label out : List ℕ)
    → inject_tenant_label cypher label ≡ some (ok out)
    → (tail : List ℕ) × Ends tail × Inserts (b':' ∷ label) (cypher ++ tail) out
unfolding inject_tenant_label
loop-Inserts cypher label out e =
    let (more, tail, q, t, i) = loop-Grows label (suc (length cypher)) start [] cypher out e in
    (tail, t, rw q i)

Ends-encode : (tail : List ℕ) → Ends tail → encode tail ≡ tail
Ends-encode tail (inl e) = rw e refl
Ends-encode tail (inr e) = rw e refl

-- A query of ASCII bytes that is accepted comes back with nothing changed but copies of `:label`, in
-- UTF-8, put between its bytes, and at most one `]` put behind it.
pub inject_tenant_label-Inserts :
    (cypher label out : List ℕ)
    → IsAscii cypher
    → inject_tenant_label cypher label ≡ some (ok out)
    → (tail : List ℕ) × Ends tail × Inserts (encode (b':' ∷ label)) (cypher ++ tail) (encode out)
inject_tenant_label-Inserts cypher label out ascii e =
    let (tail, t, i) = loop-Inserts cypher label out e in
    let same =
      encode-append cypher tail
      ∙ ap (λ cs. cs ++ encode tail) (encode-ascii cypher ascii)
      ∙ ap (λ cs. cypher ++ cs) (Ends-encode tail t) in
    (tail, t, subst (λ bs. Inserts (encode (b':' ∷ label)) bs (encode out)) same (Inserts-encode i))
