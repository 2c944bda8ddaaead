-- ===== src/Proxy/Routing.antt =====
-- matchRoute of internal/proxy/proxy.go against the order of the configuration.
use blockade.Prelude.{
  Bool-cases, All, Bytes, ◌≡◌, sym, ap, ◌↔◌, inl, inr, true, false, some, List, [], ◌∷◌, ◌++◌,
  arith,
}
use blockade.Std.Strings.{has_prefix}
use blockade.Proxy.Handler.{Route, match_route}

-- `rt` stands in the list behind routes whose prefixes do not fit the path, and its own does.
pub record IsFirst (path : Bytes) (rs : List Route) (rt : Route) : Type 0 where
  pub before : List Route
  pub after : List Route
  pub splits : rs ≡ before ++ (rt ∷ after)
  pub misses : All (λ r. has_prefix path r.path_prefix ≡ false) before
  pub fits : has_prefix path rt.path_prefix ≡ true

match_route-IsFirst :
    (path : Bytes) (rs : List Route) (rt : Route)
    → match_route path rs ≡ some rt
    → IsFirst path rs rt
unfolding match_route
match_route-IsFirst path [] rt h = absurd (cc)
match_route-IsFirst path (r ∷ rs) rt h = elim (Bool-cases (has_prefix path r.path_prefix)) [
  | inl e ↦
      let same : r ≡ rt = ground (arith, e) in
      record {
        before = [];
        after = rs;
        splits = ap (λ x. x ∷ rs) same;
        misses = tt;
        fits = rw (sym same) e;
      }
  | inr e ↦
      let rest = match_route-IsFirst path rs rt (ground (arith, e)) in
      record {
        before = r ∷ rest.before;
        after = rest.after;
        splits = ap (λ l. r ∷ l) rest.splits;
        misses = (e, rest.misses);
        fits = rest.fits;
      }
]

match_behind :
    (path : Bytes) (before after : List Route) (rt : Route)
    → All (λ r. has_prefix path r.path_prefix ≡ false) before
    → has_prefix path rt.path_prefix ≡ true
    → match_route path (before ++ (rt ∷ after)) ≡ some rt
unfolding match_route
match_behind path [] after rt m f = ground (arith, f)
match_behind path (r ∷ rs) after rt m f = ground (arith, m.0, match_behind path rs after rt m.1 f)

-- A route is matched exactly if its prefix fits the path and none in front of it does.
pub match_route_iff :
    (path : Bytes) (rs : List Route) (rt : Route)
    → (match_route path rs ≡ some rt) ↔ IsFirst path rs rt
match_route_iff path rs rt = (
  match_route-IsFirst path rs rt,
  λ f. rw f.splits (match_behind path f.before f.after rt f.misses f.fits),
)
