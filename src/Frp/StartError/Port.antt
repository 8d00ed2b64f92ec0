-- ===== src/Frp/StartError/Port.antt =====
-- What the panel says of a failed start.
use Prim.Native.String.{◌++◌}
use text.Mathlib.TextLemmas.{append_assoc, nil-append}
use ycfrp.Base.{String, ◌≡◌, sym, ap, ◌∙◌, ◌==◌, ltb, inl, inr, Bool-cases, contains}
use ycfrp.Frp.Instance.{Instance}
use ycfrp.Frp.StartError.{
  addr_from_bind_error, port_from_bind_error, describe_start_error, not_local,
}

-- A text ends with the original message.
abbrev pub Ends : String → String → Type 0
Ends msg s = (head : String) × (s ≡ head ++ msg)

module _ (msg : String) where
  here : Ends msg msg
  here = ("", sym (nil-append msg))

  after : (a : String) {s : String} → Ends msg s → Ends msg (a ++ s)
  after a (head, e) = (a ++ head, ap (λ t. a ++ t) e ∙ sym (append_assoc a head msg))

-- Whatever is said of a failed start, the message of the kernel stands whole at its end.
pub describe-Ends : (i : Instance) (msg : String) → Ends msg (describe_start_error i msg)
unfolding describe_start_error
describe-Ends i msg = elim (Bool-cases (contains msg not_local)) [
  | inl local ↦ rw local (elim (Bool-cases (addr_from_bind_error msg == "")) [
    | inl e ↦ rw e (after msg _ (here msg))
    | inr e ↦ rw e (after msg _ (after msg _ (after msg _ (here msg))))
  ])
  | inr other ↦ rw other (elim (Bool-cases (ltb 0 (port_from_bind_error msg))) [
    | inl e ↦ rw e (after msg _ (after msg _ (after msg _ (after msg _ (after msg _ (here msg))))))
    | inr e ↦ rw e (here msg)
  ])
]
