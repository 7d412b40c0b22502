-- ===== src/Resources/Tests.antt =====
-- An instance of the theorem on gateway/resources.py.
use agent_authorization_gate.Base.{◌≡◌, refl, true, false, [], ok, err, Str, codes}
use agent_authorization_gate.Base.Dict.{lookup}
use agent_authorization_gate.Resources.{
  Resource, ResourceRegistry, not_actively_registered, register, revoke, is_registered_and_active,
  validate_resource_id, without_newline, validate_display_name,
}
use agent_authorization_gate.Resources.Visible.{changes_visible}

abbrev db : Str
db = codes "db/customers"

abbrev empty : ResourceRegistry
empty = record { cache = []; memory = [] }

abbrev Registered : Type 0
Registered =
    (doc : Resource) × (g : ResourceRegistry) × (register db (codes "Customers") (codes "admin") 10
        empty
      ≡ (ok doc, g))

registered : Registered
unfolding register lookup validate_resource_id without_newline validate_display_name
registered = (_, _, refl)

changes_visible_example :
    (is_registered_and_active db 15 registered.1 ≡ true)
    × ((gone : Resource) × (g : ResourceRegistry) × (revoke db (codes "admin") 20 registered.1
          ≡ (ok gone, g))
        × (is_registered_and_active db 15 g ≡ false)
        × (revoke db (codes "admin") 15 g ≡ (err not_actively_registered, g)))
changes_visible_example =
    changes_visible db (codes "Customers") (codes "admin") (codes "admin") 10 20 15 empty
      registered.1 registered.0 registered.2

-- A newline at the end of an id is accepted.
newline_accepted : validate_resource_id (codes "db\n") ≡ true
unfolding validate_resource_id without_newline
newline_accepted = refl
