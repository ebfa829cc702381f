-- ===== src/Daemon/Ports/Hosts.antt =====
-- No two ports of src/internal/daemon/api_ports.go have one host, whatever is requested.
use unet.Base.{
  ◌≡◌, refl, false, inl, inr, List, [], ◌∷◌, arith, Text, text_eq, Bool-cases, Option-cases,
}
use unet.Config.{ExposedPort}
use unet.Config.Manager.{Faults}
use unet.Routes.Expose.{has_host, without_id}
use unet.Routes.Expose.Outcomes.{IsDistinct}
use unet.Daemon.Ports.{
  Response, Circumstances, Deps, World, target_of, unlink, handle_create, handle_remove,
}
use unet.Daemon.Ports.Outcomes.{handle_create-IsDistinct}
use unet.Daemon.Ports.Removal.{
  Removed, unsaved, its_own, by_position, handle_remove-Removed, IsDistinct-remove_at,
}

pub data PortRequest : Type 0 where
  create : Circumstances → PortRequest
  remove : Faults → Text → PortRequest

has_host-without_id :
    (host id : Text) (ps : List ExposedPort)
    → has_host host ps ≡ false
    → has_host host (without_id id ps) ≡ false
unfolding has_host without_id
has_host-without_id host id [] h = refl
has_host-without_id host id (p ∷ ps) h = ground (arith, has_host-without_id host id ps)

IsDistinct-without_id :
    (id : Text) (ps : List ExposedPort) → IsDistinct ps → IsDistinct (without_id id ps)
unfolding IsDistinct without_id
IsDistinct-without_id id [] h = tt
IsDistinct-without_id id (p ∷ ps) h = elim (Bool-cases (text_eq p.id id)) [
  | inl e ↦ rw (without_id, e) h.1
  | inr e ↦
      rw (without_id, e)
        (has_host-without_id p.host_header id ps h.0, IsDistinct-without_id id ps h.1)
]

module _ (d : Deps) where
  Removed-IsDistinct :
      (f : Faults) (id : Text) (u : World d) {i : _} (o : World d × Response)
      → Removed d f id i u o
      → IsDistinct u.manager.config.exposed_ports
      → IsDistinct o.0.manager.config.exposed_ports
  Removed-IsDistinct f id u o (unsaved n e c) h = rw e h
  Removed-IsDistinct f id u o (its_own m e own left s) h =
      rw (e, left) (IsDistinct-without_id id u.manager.config.exposed_ports h)
  Removed-IsDistinct f id u {i} o (by_position m e gone left s) h =
      rw (e, left) (IsDistinct-remove_at i u.manager.config.exposed_ports h)

  handle_remove-IsDistinct :
      (f : Faults) (id : Text) (w : World d)
      → IsDistinct w.manager.config.exposed_ports
      → IsDistinct (handle_remove d f id (λ v. v) w).0.manager.config.exposed_ports
  unfolding handle_remove unlink
  handle_remove-IsDistinct f id w h = elim (Bool-cases (text_eq id [])) [
    | inl a ↦ rw (a, handle_remove) h
    | inr a ↦ elim (Option-cases (target_of d id w.manager.config.exposed_ports)) [
      | inl b ↦ rw (a, b, handle_remove) h
      | inr ((i, p), b) ↦
          Removed-IsDistinct f id (unlink d id p w) (handle_remove d f id (λ v. v) w)
            (handle_remove-Removed d f id (λ v. v) w i p a b) h
    ]
  ]

  unfoldable pub run_requests : List PortRequest → World d → World d
  run_requests [] w = w
  run_requests (create k ∷ rs) w = run_requests rs (handle_create d k (λ v. v) w).0
  run_requests (remove f id ∷ rs) w = run_requests rs (handle_remove d f id (λ v. v) w).0

  -- If no two ports have one host, this still holds after any sequence of creations and removals,
  -- whatever the services answer and whichever saves fail.
  pub run_requests-IsDistinct :
      (rs : List PortRequest) (w : World d)
      → IsDistinct w.manager.config.exposed_ports
      → IsDistinct (run_requests rs w).manager.config.exposed_ports
  unfolding run_requests
  run_requests-IsDistinct [] w h = h
  run_requests-IsDistinct (create k ∷ rs) w h =
      run_requests-IsDistinct rs (handle_create d k (λ v. v) w).0
        (handle_create-IsDistinct d k (λ v. v) w (λ u x. x) h)
  run_requests-IsDistinct (remove f id ∷ rs) w h =
      run_requests-IsDistinct rs (handle_remove d f id (λ v. v) w).0
        (handle_remove-IsDistinct f id w h)
