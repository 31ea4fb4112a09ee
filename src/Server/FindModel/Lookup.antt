-- ===== src/Server/FindModel/Lookup.antt =====
-- findModelInBank of internal/server/server.go on a bank that is a chain of models.
use apsystems_sunspec.Base.{
  ℕ, zero, suc, ◌+◌, ◌≤◌, ◌<◌, ◌≡◌, refl, none, some, List, [], ◌∷◌, ◌++◌, All, length,
  length-append, append_assoc, get_or, ◌≢◌, ◌==◌, if◌then◌else◌, get_or-append, arith, ◌∙◌, ap,
}
use apsystems_sunspec.Base.Word.{u16}
use apsystems_sunspec.Sunspec.Bank.{Bank, at, end_model_id, base_register}
use apsystems_sunspec.Sunspec.Bank.Reads.{at-get_or}
use apsystems_sunspec.Sunspec.Chain.{Model, model_regs, chain_regs, chain, IsOpen, address_of}
use apsystems_sunspec.Server.FindModel.{walk, address, find_model_in_bank}

-- The register `k` places behind a prefix.
at-after :
    (bank : Bank) (pre rest : List ℕ) (k cur : ℕ)
    → bank.regs ≡ pre ++ rest
    → cur ≡ bank.base + (length pre + k)
    → k < length rest
    → at bank cur ≡ get_or rest k 0
at-after bank pre rest k cur e c h =
    let l : length bank.regs ≡ length pre + length rest = rw e (length-append pre rest) in
    rw (c, at-get_or bank (length pre + k) (omega arith), e) (get_or-append pre rest k 0)

-- The rest of a chain, from a model on.
abbrev closed_regs : List Model → List ℕ
closed_regs ms = model_regs ms ++ end_model_id ∷ 0 ∷ []

-- One round of the walk, at a model with identifier `i` and a body of `n` registers.
walk-model :
    (fuel : ℕ) (bank : Bank) (id cur end i n : ℕ)
    → at bank cur ≡ i
    → at bank (u16 (cur + 1)) ≡ n
    → i ≢ end_model_id
    → cur + 2 + n ≤ end
    → end < 65536
    → address (walk (suc fuel) bank id cur end)
      ≡ (if i == id then some cur else address (walk fuel bank id (cur + 2 + n) end))
unfolding walk
walk-model fuel bank id cur end i n ei en open_ fits fit16 =
    let w : u16 (cur + 2 + n) ≡ cur + 2 + n = omega arith in rw (ei, en, w) (ground arith)

walk-end :
    (fuel : ℕ) (bank : Bank) (id cur end : ℕ)
    → at bank cur ≡ end_model_id
    → address (walk (suc fuel) bank id cur end) ≡ none
unfolding walk
walk-end fuel bank id cur end e = rw e (ground arith)

length-closed_regs :
    (i : ℕ) (body : List ℕ) (ms : List Model)
    → length (closed_regs ((i, body) ∷ ms)) ≡ length body + length (model_regs ms) + 4
unfolding model_regs
length-closed_regs i body ms = omega (
  arith,
  length-append (body ++ model_regs ms) (end_model_id ∷ 0 ∷ []),
  length-append body (model_regs ms),
)

-- A model that the walk has passed belongs to the prefix.
closed_regs-cons :
    (pre : List ℕ) (i : ℕ) (body : List ℕ) (ms : List Model)
    → pre ++ closed_regs ((i, body) ∷ ms) ≡ (pre ++ i ∷ length body ∷ body) ++ closed_regs ms
unfolding model_regs
closed_regs-cons pre i body ms =
    rw (append_assoc pre (i ∷ length body ∷ body) (closed_regs ms))
      (ap (λ t. pre ++ i ∷ length body ∷ t) (append_assoc body (model_regs ms) _))

walk-chain :
    (fuel : ℕ) (bank : Bank) (id cur end : ℕ) (pre : List ℕ) (ms : List Model)
    → bank.regs ≡ pre ++ closed_regs ms
    → cur ≡ bank.base + length pre
    → end ≡ bank.base + length bank.regs
    → end < 65536
    → All IsOpen ms
    → length ms ≤ fuel
    → address (walk (suc fuel) bank id cur end) ≡ address_of id ms cur
unfolding model_regs address_of
walk-chain fuel bank id cur end pre [] e c d fit16 o f =
    walk-end fuel bank id cur end
      (at-after bank pre (end_model_id ∷ 0 ∷ []) 0 cur e (omega arith) (omega arith))
walk-chain zero bank id cur end pre ((i, body) ∷ ms) e c d fit16 o f = absurd (omega arith)
walk-chain (suc fuel) bank id cur end pre ((i, body) ∷ ms) e c d fit16 o f =
    let total : length bank.regs ≡ length pre + length (closed_regs ((i, body) ∷ ms)) =
      rw e (length-append pre (closed_regs ((i, body) ∷ ms))) in
    let room = length-closed_regs i body ms in
    rw
      (walk-model (suc fuel) bank id cur end i (length body)
        (at-after bank pre (closed_regs ((i, body) ∷ ms)) 0 cur e (omega arith) (omega arith))
        (at-after bank pre (closed_regs ((i, body) ∷ ms)) 1 (u16 (cur + 1)) e (omega arith)
          (omega arith))
        o.0 (omega arith) fit16)
      (ap (λ r. if i == id then some cur else r)
        (walk-chain fuel bank id (cur + 2 + length body) end (pre ++ i ∷ length body ∷ body) ms
          (e ∙ closed_regs-cons pre i body ms)
          (omega (arith, length-append pre (i ∷ length body ∷ body))) d fit16 o.1 (omega arith)))

length-model_regs-le : (ms : List Model) → length ms ≤ length (model_regs ms)
unfolding model_regs
length-model_regs-le [] = omega arith
length-model_regs-le ((i, body) ∷ ms) =
    omega (arith, length-append body (model_regs ms), length-model_regs-le ms)

-- In a chain of models that ends below the top of the 16-bit address space, and none of which has
-- the end marker's identifier, the search for any identifier returns the address of the first model
-- that has it, and nothing when none has.
pub find_model_in_bank-chain :
    (ms : List Model) (id : ℕ)
    → All IsOpen ms
    → base_register + length (chain_regs ms) < 65536
    → find_model_in_bank (chain ms) id ≡ address_of id ms (base_register + 2)
unfolding find_model_in_bank chain chain_regs
find_model_in_bank-chain ms id o fit16 =
    let len = length-append (model_regs ms) (end_model_id ∷ 0 ∷ []) in
    let e : u16 (base_register + u16 (length (chain_regs ms)))
        ≡ base_register + length (chain_regs ms) =
      omega arith in
    rw e (
      walk-chain 65535 (chain ms) id 40002 (base_register + length (chain_regs ms))
        (0x5375 ∷ 0x6E53 ∷ []) ms refl refl refl fit16 o (omega (arith, length-model_regs-le ms)))
