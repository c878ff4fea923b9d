-- ===== src/Domain/Identifier/Names.antt =====
-- crates/nodescale-domain/src/lib.rs: `validate_name` against the names that it is for.
use hermes_nodescale.Prelude.{◌≤◌, ◌≡◌, ◌↔◌, false, String, ok, arith, all, any}
use hermes_nodescale.Text.{Text, len, is_whitespace, is_control}
use hermes_nodescale.Text.Laws.{is_empty-trim}
use hermes_nodescale.Domain.Identifier.{validate_name}

-- A network or device name is accepted, unchanged, exactly if it has a character that is not white
-- space, has at most 128 bytes, and has no control character.
pub validate_name_exact :
    (value t : Text) (kind : String)
    → (validate_name value kind ≡ ok t) ↔ (
        (value ≡ t)
        × (all is_whitespace value ≡ false)
        × (len value ≤ 128)
        × (any is_control value ≡ false))
unfolding validate_name
validate_name_exact value t kind =
    let e = is_empty-trim value in (λ h. ground (arith, e), λ h. ground (arith, e))
