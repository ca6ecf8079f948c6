-- ===== src/Sdwan/Normalize/Mesh.antt =====
-- sdwan.go: the names of the links of a full mesh are there, and are not added again.
use ovnflow.Base.{List, [], ◌∷◌, All, All-weaken}
use ovnflow.Base.{◌≡◌, refl}
use ovnflow.Text.{Text}
use ovnflow.Sdwan.Types.{Site, Link, pair_name, stable_name}
use ovnflow.Sdwan.Normalize.{ensure_auto_link, auto_link, mesh_row, full_mesh}
use ovnflow.Sdwan.Normalize.Topology.{
  HasLink, ensure_auto_link-HasLink, ensure_auto_link-own, ensure_auto_link-id,
  stable_name-auto_link,
}

-- A link of the name that `a` makes with each of the sites.
abbrev pub RowIn : List Link → Site → List Site → Type 0
RowIn links a sites = All (λ b. HasLink (pair_name a.name b.name) links) sites

-- A link of the name that each two of the sites make.
abbrev pub MeshIn : List Link → List Site → Type 0
MeshIn links [] = Unit {0}
MeshIn links (a ∷ sites) = RowIn links a sites × MeshIn links sites

mesh_row-HasLink :
    (t : Text) (a : Site) (sites : List Site) (links : List Link) (name : Text)
    → HasLink name links
    → HasLink name (mesh_row t a sites links)
unfolding mesh_row
mesh_row-HasLink t a [] links name h = h
mesh_row-HasLink t a (b ∷ sites) links name h =
    mesh_row-HasLink t a sites _ name (ensure_auto_link-HasLink name links _ h)

mesh_row-RowIn :
    (t : Text) (a : Site) (sites : List Site) (links : List Link)
    → RowIn (mesh_row t a sites links) a sites
unfolding mesh_row
mesh_row-RowIn t a [] links = tt
mesh_row-RowIn t a (b ∷ sites) links =
    let link = auto_link t a.name b.name in
    let own : HasLink (pair_name a.name b.name) (ensure_auto_link links link) =
      rw⁻¹ (stable_name-auto_link t a.name b.name) (ensure_auto_link-own links link) in
    (mesh_row-HasLink t a sites _ (pair_name a.name b.name) own, mesh_row-RowIn t a sites _)

pub full_mesh-HasLink :
    (t : Text) (sites : List Site) (links : List Link) (name : Text)
    → HasLink name links
    → HasLink name (full_mesh t sites links)
unfolding full_mesh
full_mesh-HasLink t [] links name h = h
full_mesh-HasLink t (a ∷ sites) links name h =
    full_mesh-HasLink t sites _ name (mesh_row-HasLink t a sites links name h)

pub full_mesh-MeshIn :
    (t : Text) (sites : List Site) (links : List Link) → MeshIn (full_mesh t sites links) sites
unfolding full_mesh
full_mesh-MeshIn t [] links = tt
full_mesh-MeshIn t (a ∷ sites) links =
    let row = mesh_row t a sites links in
    (
      All-weaken (λ b. HasLink (pair_name a.name b.name) row)
          (λ b. HasLink (pair_name a.name b.name) (full_mesh t sites row)) sites
          (λ b. full_mesh-HasLink t sites row (pair_name a.name b.name))
          (mesh_row-RowIn t a sites links),
      full_mesh-MeshIn t sites row,
    )

mesh_row-id :
    (t : Text) (a : Site) (sites : List Site) (links : List Link)
    → RowIn links a sites
    → mesh_row t a sites links ≡ links
unfolding mesh_row
mesh_row-id t a [] links h = refl
mesh_row-id t a (b ∷ sites) links h =
    let there : HasLink (stable_name (auto_link t a.name b.name)) links =
      rw (stable_name-auto_link t a.name b.name) h.0 in
    rw (ensure_auto_link-id links (auto_link t a.name b.name) there)
      (mesh_row-id t a sites links h.1)

pub full_mesh-id :
    (t : Text) (sites : List Site) (links : List Link)
    → MeshIn links sites
    → full_mesh t sites links ≡ links
unfolding full_mesh
full_mesh-id t [] links h = refl
full_mesh-id t (a ∷ sites) links h =
    rw (mesh_row-id t a sites links h.0) (full_mesh-id t sites links h.1)
