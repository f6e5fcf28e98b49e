-- ===== src/Edge/Version/Laws.antt =====
-- The order of versions of lib/edgecore/release_set.go.
use yu_feng.Base.{String, ◌≡◌, true, false, ◌<◌, ◌≤◌, ◌⊎◌, ◌↔◌, some, arith, str_eq}
use yu_feng.Edge.Text.{GoText}
use yu_feng.Edge.Version.{
  Version, at_least, edge_version_compatible, parse_version, trim_v, trimmed_compatible,
}

-- The lexicographic order on three numbers.
abbrev pub LexLe : Version → Version → Type 0
LexLe r a =
    (r.major < a.major)
    ⊎ ((r.major ≡ a.major) × ((r.minor < a.minor) ⊎ ((r.minor ≡ a.minor) × (r.patch ≤ a.patch))))

at_least_iff : (a r : Version) → (at_least a r ≡ true) ↔ LexLe r a
unfolding at_least
at_least_iff a r = (λ h. ground arith, λ h. ground arith)

-- Where both versions parse and "dev" is not what is required, an edge is compatible exactly if its
-- version is at least the required one in the lexicographic order of the three numbers.
pub edge_version_compatible_iff :
    (g : GoText) (actual required : String) (a r : Version)
    → str_eq (trim_v (g.trim_space required)) "dev" ≡ false
    → parse_version (trim_v (g.trim_space actual)) ≡ some a
    → parse_version (trim_v (g.trim_space required)) ≡ some r
    → (edge_version_compatible g actual required ≡ true) ↔ LexLe r a
unfolding edge_version_compatible trimmed_compatible
edge_version_compatible_iff g actual required a r dev ha hr = rw (dev, ha, hr) (at_least_iff a r)
