-- ===== src/Daemon/Ports/Removal.antt =====
-- What a removal of src/internal/daemon/api_ports.go takes away.
use unet.Base.{
  ℕ, zero, suc, ◌+◌, ◌≡◌, refl, ap, ◌∙◌, true, false, inl, inr, List, [], ◌∷◌, none, some, arith,
  Text, text_eq, Bool-cases, Option-cases,
}
use unet.Config.{ExposedPort}
use unet.Config.Manager.{Manager, Faults, update}
use unet.Config.Manager.Updates.{IsSaved, update-cases}
use unet.Proxy.Caddy.{remove_at}
use unet.Routes.Expose.{has_host, without_id}
use unet.Routes.Expose.Outcomes.{has_id, IsDistinct}
use unet.Daemon.Ports.{
  Response, not_saved, removed, Deps, World, find_port, drop_port, target_of, unlink, handle_remove,
}

-- The port that is found is the one that goes.
find_port-without_id :
    (id : Text) (ps : List ExposedPort) (i : ℕ) (p : ExposedPort)
    → find_port id ps ≡ some (i, p)
    → remove_at i ps ≡ without_id id ps
unfolding find_port without_id
find_port-without_id id [] i p h = cc
find_port-without_id id (q ∷ ps) i p h = elim (Bool-cases (text_eq q.id id)) [
  | inl e ↦
      let x : some (0, q) ≡ some (i, p) = rw (find_port, e) at h in
      let y : i ≡ 0 = cc x in rw (y, e, without_id) refl
  | inr e ↦ elim (Option-cases (find_port id ps)) [
    | inl f ↦ (let x = rw (find_port, e, f) at h in cc x)
    | inr ((j, r), f) ↦
        let x : some (j + 1, r) ≡ some (i, p) = rw (find_port, e, f) at h in
        let y : i ≡ j + 1 = cc x in
        let z : i ≡ suc j = omega (arith, y) in
        rw (z, e, without_id) (ap (◌∷◌ q) (find_port-without_id id ps j r f))
  ]
]

find_port-none : (id : Text) (ps : List ExposedPort) → has_id id ps ≡ false → find_port id ps ≡ none
unfolding find_port has_id
find_port-none id [] h = refl
find_port-none id (q ∷ ps) h = elim (Bool-cases (text_eq q.id id)) [
  | inl e ↦ (let x = rw (e, has_id) at h in cc x)
  | inr e ↦ rw (e, find_port, find_port-none id ps (rw (e, has_id) at h)) refl
]

pub find_port-some :
    (id : Text) (ps : List ExposedPort)
    → has_id id ps ≡ true
    → (x : ℕ × ExposedPort) × (find_port id ps ≡ some x)
unfolding find_port has_id
find_port-some id [] h = cc
find_port-some id (q ∷ ps) h = elim (Bool-cases (text_eq q.id id)) [
  | inl e ↦ ((0, q), rw (e, find_port) refl)
  | inr e ↦
      let ((i, p), f) = find_port-some id ps (rw (e, has_id) at h) in
      ((i + 1, p), rw (e, find_port, f) refl)
]

has_host-remove_at :
    (host : Text) (i : ℕ) (ps : List ExposedPort)
    → has_host host ps ≡ false
    → has_host host (remove_at i ps) ≡ false
unfolding has_host
has_host-remove_at host i [] h = refl
has_host-remove_at host zero (p ∷ ps) h = ground arith
has_host-remove_at host (suc i) (p ∷ ps) h = ground (arith, has_host-remove_at host i ps)

pub IsDistinct-remove_at :
    (i : ℕ) (ps : List ExposedPort) → IsDistinct ps → IsDistinct (remove_at i ps)
unfolding IsDistinct
IsDistinct-remove_at i [] h = tt
IsDistinct-remove_at zero (p ∷ ps) h = h.1
IsDistinct-remove_at (suc i) (p ∷ ps) h =
    (has_host-remove_at p.host_header i ps h.0, IsDistinct-remove_at i ps h.1)

module _ (d : Deps) where
  -- The end of a removal whose update came to a world `u`, for the target at the index.
  pub data Removed (f : Faults) (id : Text) (i : ℕ) (u : World d) (o : World d × Response)
      : Type 0 where
    unsaved :
        (t : List Text)
        → o ≡ (record u { manager = record u.manager { temps = t } }, not_saved)
        → (f.remove_temp ≡ false → t ≡ u.manager.temps)
        → Removed f id i u o
    its_own :
        (m : Manager)
        → o ≡ (record u { manager = m }, removed)
        → has_id id u.manager.config.exposed_ports ≡ true
        → m.config
          ≡ record u.manager.config { exposed_ports = without_id id u.manager.config.exposed_ports }
        → IsSaved d.codec m
        → Removed f id i u o
    by_position :
        (m : Manager)
        → o ≡ (record u { manager = m }, removed)
        → has_id id u.manager.config.exposed_ports ≡ false
        → m.config
          ≡ record u.manager.config { exposed_ports = remove_at i u.manager.config.exposed_ports }
        → IsSaved d.codec m
        → Removed f id i u o

  -- A removal whose target is found either cannot be saved and keeps the configuration that its
  -- update met, and no temporary file unless its removal failed; or takes away the first port
  -- with the id, if one is there at the update; or, if none is there any more, whatever port
  -- stands at the position that the target had. In the last two the configuration is saved.
  pub handle_remove-Removed :
      (f : Faults) (id : Text) (meanwhile : World d → World d) (w : World d) (i : ℕ)
      (p : ExposedPort)
      → text_eq id [] ≡ false
      → target_of d id w.manager.config.exposed_ports ≡ some (i, p)
      → Removed f id i (meanwhile (unlink d id p w)) (handle_remove d f id meanwhile w)
  unfolding handle_remove drop_port
  handle_remove-Removed f id meanwhile w i p full found =
      let u = meanwhile (unlink d id p w) in
      elim (update-cases d.codec f (drop_port id i) u.manager) [
        | inl (x, t, q, e) ↦ unsaved t (rw (handle_remove, full, found, q) refl) e
        | inr (a, b, c, s) ↦
            let m = (update d.codec f (drop_port id i) u.manager).0 in
            let e : update d.codec f (drop_port id i) u.manager ≡ (m, none) = ap (λ y. (m, y)) a in
            let ends : handle_remove d f id meanwhile w ≡ (record u { manager = m }, removed) =
              rw (handle_remove, full, found, e) refl in
            elim (Bool-cases (has_id id u.manager.config.exposed_ports)) [
              | inl t ↦
                  let ((j, q), g) = find_port-some id u.manager.config.exposed_ports t in
                  its_own m ends t
                    (b
                      ∙ rw (drop_port, g)
                          (ap (λ ps. record u.manager.config { exposed_ports = ps })
                            (find_port-without_id id u.manager.config.exposed_ports j q g)))
                    s
              | inr t ↦
                  by_position m ends t
                    (b ∙ rw (drop_port, find_port-none id u.manager.config.exposed_ports t) refl) s
            ]
      ]
