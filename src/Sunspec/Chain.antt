-- ===== src/Sunspec/Chain.antt =====
-- What a SunSpec client expects of a bank: the marker "SunS", then models, each an identifier, the
-- length of its body and the body, then the end marker. This is the specification that the
-- encoders of internal/sunspec are held to, and that the walk of internal/server relies on.
use apsystems_sunspec.Base.{
  ℕ, ◌+◌, ◌≡◌, ◌≢◌, refl, Option, none, some, List, [], ◌∷◌, ◌++◌, All, length, length-append,
  append_assoc, append-nil, ◌==◌, if◌then◌else◌, arith, sym, ap, ◌∙◌, map, map-append,
}
use apsystems_sunspec.Sunspec.Bank.{Bank, base_register, end_model_id}

-- An identifier and a body.
abbrev pub Model : Type 0
Model = ℕ × List ℕ

unfoldable pub model_regs : List Model → List ℕ
model_regs [] = []
model_regs ((id, body) ∷ ms) = id ∷ length body ∷ body ++ model_regs ms

unfoldable pub chain_regs : List Model → List ℕ
chain_regs ms = 0x5375 ∷ 0x6E53 ∷ model_regs ms ++ end_model_id ∷ 0 ∷ []

unfoldable pub chain : List Model → Bank
unfolding chain_regs
chain ms = record { regs = chain_regs ms; base = base_register }

-- No model has the identifier of the end marker.
abbrev pub IsOpen : Model → Type 0
IsOpen m = m.0 ≢ end_model_id

-- The address of the first model with an identifier, where the first model stands at `addr`.
unfoldable pub address_of : ℕ → List Model → ℕ → Option ℕ
address_of id [] addr = none
address_of id ((i, body) ∷ ms) addr =
    if i == id then some addr else address_of id ms (addr + 2 + length body)

-- Identifiers and body lengths, which decide where each model stands.
abbrev pub Layout : Type 0
Layout = List (ℕ × ℕ)

abbrev pub layout_of : List Model → Layout
layout_of ms = map (λ m. (m.0, length m.1)) ms

-- The address of the first model with an identifier, from the layout alone.
abbrev pub layout_address : ℕ → Layout → ℕ → Option ℕ
layout_address id [] addr = none
layout_address id ((i, n) ∷ ls) addr =
    if i == id then some addr else layout_address id ls (addr + 2 + n)

-- The registers that a layout takes.
abbrev pub layout_size : Layout → ℕ
layout_size [] = 0
layout_size ((i, n) ∷ ls) = 2 + n + layout_size ls

-- Registers that are one model: its identifier, its length, and a body of that length.
abbrev pub IsModel : ℕ → ℕ → List ℕ → Type 0
IsModel id n regs = (body : List ℕ) × (length body ≡ n) × (regs ≡ id ∷ n ∷ body)

pub length-IsModel : {id n : ℕ} {regs : List ℕ} → IsModel id n regs → length regs ≡ n + 2
length-IsModel (body, len, e) = ap length e ∙ omega (arith, len)

-- Registers that are a sequence of models of the given layout.
abbrev pub HasLayout : Layout → List ℕ → Type 0
HasLayout ls regs = (ms : List Model) × (layout_of ms ≡ ls) × (regs ≡ model_regs ms)

pub model_regs-append :
    (ms ns : List Model) → model_regs (ms ++ ns) ≡ model_regs ms ++ model_regs ns
unfolding model_regs
model_regs-append [] ns = refl
model_regs-append ((id, body) ∷ ms) ns =
    rw (model_regs-append ms ns)
      (ap (λ t. id ∷ length body ∷ t) (sym (append_assoc body (model_regs ms) (model_regs ns))))

pub HasLayout-nil : HasLayout [] []
unfolding model_regs
HasLayout-nil = ([], refl, refl)

pub HasLayout-model : {id n : ℕ} {regs : List ℕ} → IsModel id n regs → HasLayout ((id, n) ∷ []) regs
unfolding model_regs
HasLayout-model {id} {n} {regs} (body, len, e) =
    ((id, body) ∷ [], rw len refl, rw (append-nil body, len) e)

pub HasLayout-append :
    {ls ks : Layout} {xs ys : List ℕ}
    → HasLayout ls xs
    → HasLayout ks ys
    → HasLayout (ls ++ ks) (xs ++ ys)
HasLayout-append (ms, e, x) (ns, f, y) =
    (ms ++ ns, rw (map-append, e, f) refl, rw (x, y) (sym (model_regs-append ms ns)))

pub address_of-layout :
    (id : ℕ) (ms : List Model) (addr : ℕ)
    → address_of id ms addr ≡ layout_address id (layout_of ms) addr
unfolding address_of
address_of-layout id [] addr = refl
address_of-layout id ((i, body) ∷ ms) addr =
    ap (λ r. if i == id then some addr else r) (address_of-layout id ms (addr + 2 + length body))

pub length-model_regs : (ms : List Model) → length (model_regs ms) ≡ layout_size (layout_of ms)
unfolding model_regs
length-model_regs [] = refl
length-model_regs ((i, body) ∷ ms) =
    omega (arith, length-append body (model_regs ms), length-model_regs ms)

abbrev pub IsOpenLayout : Layout → Type 0
IsOpenLayout ls = All (λ l. l.0 ≢ end_model_id) ls

pub layout-IsOpen : (ms : List Model) → IsOpenLayout (layout_of ms) → All IsOpen ms
layout-IsOpen [] h = tt
layout-IsOpen (m ∷ ms) h = (h.0, layout-IsOpen ms h.1)

pub layout_size-append : (ls ks : Layout) → layout_size (ls ++ ks) ≡ layout_size ls + layout_size ks
layout_size-append [] ks = omega arith
layout_size-append ((i, n) ∷ ls) ks = omega (arith, layout_size-append ls ks)
