-- ===== src/NetworkManager/Rebuild/Laws.antt =====
-- Reading a profile that onboardd has written and writing it back.
use onboardd.Prelude.{
  ℕ, String, Bool, true, false, not, Bool-cases, inl, inr, none, some, [], string_eq, ap, ◌∙◌, ◌≡◌,
  arith,
}
use onboardd.GoError.{ok}
use onboardd.NetworkManager.Settings.{
  InfrastructureOptions, Settings, Std, resolve_uuid, infrastructure_settings,
  build_infrastructure_settings,
}
use onboardd.NetworkManager.Reader.{read_profile, profile_in_memory}
use onboardd.NetworkManager.Rebuild.{update_autoconnect}
use onboardd.NetworkManager.Rebuild.Again.{Kept, secured_again, sent_again}

-- An open network has no secrets.
open-Kept :
    (o : InfrastructureOptions) (uuid : String) (current secrets : Settings)
    → o.is_open ≡ true
    → Kept (infrastructure_settings o uuid) current secrets
    → Kept (infrastructure_settings o uuid) current []
unfolding infrastructure_settings
open-Kept o uuid current secrets unsecured kept = record {
  written = kept.written;
  marked = kept.marked;
  secured = kept.secured;
  secret = ground arith;
}

-- An update of the autoconnect flag writes a network profile back as it was built, from what
-- NetworkManager answers about it: the settings that are sent are those of the first options with
-- the new flag and without the mark of a profile on trial, password, SSID, priority and id included.
-- This holds for accepted options with a UUID in canonical form, where NetworkManager answers each
-- value that was written, the password when it is asked for the secrets. It may leave out a default
-- and add sections and keys of its own, though no security section to an open network; none of these
-- is sent back.
pub update_autoconnect-Kept :
    (std : Std) (trim_space : String → String) (print_cidr : String → ℕ → String)
    (path filename : String) (o : InfrastructureOptions) (built current secrets : Settings)
    (uuid : String) (enabled : Bool)
    → build_infrastructure_settings std o ≡ ok (built, uuid)
    → resolve_uuid std uuid ≡ ok uuid
    → Kept (infrastructure_settings o uuid) current secrets
    → (update_autoconnect std print_cidr
        (read_profile trim_space path current filename)
        enabled
        (ok current)
        (ok secrets)
        none)
      ≡ (
        some (
          infrastructure_settings (record o { autoconnect = enabled; pending = false }) uuid,
          profile_in_memory trim_space filename,
        ),
        none,
      )
unfolding update_autoconnect
update_autoconnect-Kept std trim_space print_cidr path filename o built current secrets uuid enabled
      h canonical kept =
    elim (Bool-cases o.is_open) [
      | inl unsecured ↦
          let kept' = open-Kept o uuid current secrets unsecured kept in
          rw
            (secured_again std trim_space path filename o uuid current secrets kept
              ∙ ap not unsecured)
            (sent_again std trim_space path filename o uuid current [] kept' print_cidr built
              enabled h canonical)
      | inr secured ↦
          rw
            (secured_again std trim_space path filename o uuid current secrets kept
              ∙ ap not secured)
            (sent_again std trim_space path filename o uuid current secrets kept print_cidr built
              enabled h canonical)
    ]
