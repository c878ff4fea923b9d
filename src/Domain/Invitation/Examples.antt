-- ===== src/Domain/Invitation/Examples.antt =====
-- The properties of invitations at concrete ones.
use hermes_nodescale.Prelude.{◌<◌, ◌≡◌, refl, true, false, [], ◌∷◌, Option, none, some, ok}
use hermes_nodescale.Text.{text}
use hermes_nodescale.OrderedSet.{contains}
use hermes_nodescale.Domain.Identifier.{JoinConstraints}
use hermes_nodescale.Domain.Roles.{worker, admin, ranked_role}
use hermes_nodescale.Domain.Lifecycle.Invitation.{issued}
use hermes_nodescale.Domain.Verifier.{PhcParser, is_n4_verifier, validate_n4_verifier}
use hermes_nodescale.Domain.Invitation.{
  Invitation, InvitationParts, InvitationAdminIntent, explicit, legacy, n4a, new_invitation,
  new_n4_invitation, validate_n4_issuance,
}
use hermes_nodescale.Domain.Invitation.Issuance.{n4_issued_is_valid}

-- A parser that reads every string as the N4 profile.
abbrev phc : PhcParser
phc _ = some (record {
  algorithm = text "argon2id";
  version = some 0x13;
  memory_kib = some 19_456;
  time_cost = some 2;
  parallelism = some 1;
  hash_bytes = some 32;
})

abbrev hints : JoinConstraints
hints = record { expected_platform = some (text "linux"); expected_hostname_hint = none }

abbrev admin_parts : InvitationParts
admin_parts = record {
  invitation_id = 1;
  network_id = 2;
  roles = worker ∷ admin ∷ [];
  secret_verifier = text "$argon2id$";
  created_at = 100;
  expires_at = 200;
  max_uses = 1;
}

abbrev no_intent : Option InvitationAdminIntent
no_intent = none

abbrev admin_invitation : Invitation
admin_invitation = record {
  invitation_id = 1;
  network_id = 2;
  state = issued;
  roles = worker ∷ admin ∷ [];
  created_at = 100;
  expires_at = 200;
  max_uses = 1;
  used_count = 0;
  secret_verifier = text "$argon2id$";
  provider_credential_reference = none;
  join_constraints = hints;
  workflow = n4a;
  elevated_admin_intent = true;
}

admin_issued : new_n4_invitation phc admin_parts (some explicit) hints ≡ ok admin_invitation
unfolding new_n4_invitation is_n4_verifier validate_n4_verifier contains
admin_issued = refl

n4_issued_is_valid_example :
    (validate_n4_issuance phc admin_invitation ≡ ok tt)
    × (admin_invitation.max_uses ≡ 1)
    × (admin_invitation.used_count ≡ 0)
    × (n4a ≡ n4a)
    × (true ≡ contains (worker ∷ admin ∷ []) admin)
    × (100 < 200)
n4_issued_is_valid_example =
    n4_issued_is_valid phc admin_parts (some explicit) hints admin_invitation admin_issued

abbrev legacy_parts : InvitationParts
legacy_parts = record admin_parts { roles = worker ∷ []; max_uses = 5 }

abbrev legacy_invitation : Invitation
legacy_invitation = record admin_invitation {
  roles = worker ∷ [];
  max_uses = 5;
  join_constraints = record { expected_platform = none; expected_hostname_hint = none };
  workflow = legacy;
  elevated_admin_intent = false;
}

legacy_issued : new_invitation legacy_parts ≡ ok legacy_invitation
unfolding new_invitation contains
legacy_issued = refl
