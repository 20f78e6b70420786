-- ===== src/Tree/Find.antt =====
-- `b_tree_search` of src/b_tree.c finds the row with a key in the tree of its pages.
use my_jql.Prelude.{
  ℕ, zero, suc, ◌+◌, ◌*◌, ◌≤◌, ◌<◌, ◌≡◌, ◌≢◌, refl, sym, ap, ◌∙◌, inl, inr, ℤ, pos, minus_one, ◌=ℤ◌,
  Bool-cases, some, List, ◌∷◌, length, ltb, lt→ltb, ge→ltb, if◌then◌else◌, arith, lt_or_ge,
}
use native.Mathlib.Decide.{ℕ_discrete}
use mathlib.Core.Path.{subst}
use my_jql.FileIo.{page_size}
use my_jql.BufferPool.{cache_page}
use my_jql.BufferPool.Valid.{page_addr}
use my_jql.Exec.{Exec, pure, ◌>>=◌, ◌>>◌, bind-some}
use my_jql.Pages.{Pages}
use my_jql.Pages.Held.{remove-cons_self, count-cons_self}
use my_jql.Pages.Laws.{HasPages}
use my_jql.Table.{Rid}
use my_jql.Tree.{TreePage, BNode, failed_rid}
use my_jql.Tree.Search.{first_equal, first_greater, search_entry, b_tree_search}
use my_jql.Tree.Scan.{Compares, first_equal_lem, first_greater_lem}
use my_jql.Tree.Shape.{
  Found, HasRow, InIndex, IsIndex, IsTree, Separated, hit, missed, node_at, page_of, root,
}

module _ {S : Type 0} (pages : Pages S TreePage) (laws : HasPages pages) (content : ℕ → TreePage)
    (size : ℕ) (key : Rid → ℕ) (target : ℕ) (cmp : List ℕ → ℕ → Rid → Exec S ℤ) (chars : List ℕ)
    (len : ℕ) where
  open pages use {get_page, load, release}

  -- The comparison reads no page of the index.
  abbrev pub IsComparison : Type 0
  IsComparison =
      (held : List ℕ) (budget : ℕ)
      → Compares (laws.Shows content size held budget) key target (cmp chars len)

  -- What `search_entry` does with a leaf and with an inner node that it holds.
  abbrev at_leaf : BNode → ℤ → Exec S Rid
  at_leaf node addr = do
    counter ← first_equal (cmp chars len) node.row_ptr node.n 0
    release addr
    pure (if ltb counter node.n then node.row_ptr counter else failed_rid)

  abbrev at_inner : (fuel : ℕ) → BNode → ℤ → Exec S Rid
  at_inner fuel node addr = do
    prt_child ← first_greater (cmp chars len) node.row_ptr node.n 0
    release addr
    search_entry pages cmp chars len fuel (node.child prt_child)

  -- The search ends with a row, and the pages are as they were.
  abbrev Ends : Exec S Rid → (Rid → Type 0) → List ℕ → ℕ → S → Type 0
  Ends m Has held budget s =
      (s' : S) × (rid : Rid) × (m s ≡ some (rid, s'))
      × Found Has key target rid
      × laws.Shows content size held budget s'

  module _ (compares : IsComparison) (held : List ℕ) (budget n : ℕ) (s : S)
      (shows : laws.Shows content size (n ∷ held) (suc budget) s) where
    leaf-Ends :
        (node : BNode) (Has : Rid → Type 0)
        → ((j : ℕ) → j < node.n → Has (node.row_ptr j))
        → ((r : Rid) → Has r → (j : ℕ) × (j < node.n) × (node.row_ptr j ≡ r))
        → Ends (at_leaf node (page_addr n)) Has held budget s
    leaf-Ends node Has into out =
        let scan =
          first_equal_lem (laws.Shows content size (n ∷ held) (suc budget)) key target
            (cmp chars len) node.row_ptr node.n
            (λ j s _. compares (n ∷ held) (suc budget) (node.row_ptr j) s) node.n 0 s (omega arith)
            shows in
        let (s2, freed, shows2) =
          laws.release content size (n ∷ held) budget scan.s' n
            (omega (arith, count-cons_self n held)) scan.keeps in
        let rid = if ltb scan.at node.n then node.row_ptr scan.at else failed_rid in
        (
          s2,
          rid,
          bind-some (first_equal (cmp chars len) node.row_ptr node.n 0) _ s scan.s' scan.at
                scan.finds
              ∙ bind-some (release (page_addr n)) (λ _. pure rid) scan.s' s2 tt freed,
          found scan.at rid (omega (arith, scan.to)) (λ j lt. scan.others j (omega arith) lt)
              (λ lt. scan.here (omega arith)) refl,
          subst (λ h. laws.Shows content size h budget s2) (remove-cons_self n held) shows2,
        )
      where
        found :
            (at : ℕ) (rid : Rid)
            → at ≤ node.n
            → ((j : ℕ) → j < at → key (node.row_ptr j) ≢ target)
            → (at < node.n → key (node.row_ptr at) ≡ target)
            → rid ≡ (if ltb at node.n then node.row_ptr at else failed_rid)
            → Found Has key target rid
        found at rid to others here e = elim (lt_or_ge at node.n) [
          | inl lt ↦
              let same : rid ≡ node.row_ptr at = e ∙ rw (lt→ltb at node.n lt) refl in
              hit (subst Has (sym same) (into at lt)) (ap key same ∙ here lt)
          | inr ge ↦
              missed (e ∙ rw (ge→ltb at node.n ge) refl)
                λ r has. let (j, lt, q) = out r has in λ p. others j (omega arith) (ap key q ∙ p)
        ]

  module _ (compares : IsComparison) where
    spend :
        (k budget : ℕ) (held : List ℕ) (s : S)
        → laws.Shows content size held (k + budget) s
        → laws.Shows content size held budget s
    spend zero budget held s shows =
        subst (λ b. laws.Shows content size held b s) (zero_add budget) shows
      where
        zero_add : (b : ℕ) → zero + b ≡ b
        zero_add b = omega arith
    spend (suc k) budget held s shows = spend k budget held s (
        laws.waste content size held (k + budget) s
          (subst (λ b. laws.Shows content size held b s) (suc_add k budget) shows))
      where
        suc_add : (k b : ℕ) → suc k + b ≡ suc (k + b)
        suc_add k b = omega arith

    inner-Ends :
        (fuel height : ℕ) (held : List ℕ) (budget last n : ℕ) (s : S) (node : BNode)
        → laws.Shows content size (n ∷ held) (suc budget) s
        → ((j : ℕ)
            → j ≤ node.n
            → (rid : Rid) → HasRow content height (node.child j) rid
            → Separated content key node j rid)
        → ((j : ℕ) (s' : S)
            → j ≤ node.n
            → laws.Shows content size held budget s'
            → Ends
                (search_entry pages cmp chars len fuel (node.child j))
                (HasRow content height (node.child j))
                held
                last
                s')
        → Ends
            (at_inner fuel node (page_addr n))
            (λ rid. (j : ℕ) × (j ≤ node.n) × HasRow content height (node.child j) rid)
            held
            last
            s
    inner-Ends fuel height held budget last n s node shows apart next =
        let scan =
          first_greater_lem (laws.Shows content size (n ∷ held) (suc budget)) key target
            (cmp chars len) node.row_ptr node.n
            (λ j s _. compares (n ∷ held) (suc budget) (node.row_ptr j) s) node.n 0 s (omega arith)
            shows in
        let (s2, freed, shows2) =
          laws.release content size (n ∷ held) budget scan.s' n
            (omega (arith, count-cons_self n held)) scan.keeps in
        let kept =
          subst (λ h. laws.Shows content size h budget s2) (remove-cons_self n held) shows2 in
        let to : scan.at ≤ node.n = omega (arith, scan.to) in
        let (s3, rid, e, found, shows3) = next scan.at s2 to kept in
        (
          s3,
          rid,
          bind-some (first_greater (cmp chars len) node.row_ptr node.n 0) _ s scan.s' scan.at
                scan.finds
              ∙ bind-some (release (page_addr n))
                  (λ _. search_entry pages cmp chars len fuel (node.child scan.at)) scan.s' s2 tt
                  freed
              ∙ e,
          widen scan.at rid to (λ j lt. scan.below j (omega arith) lt)
              (λ lt. scan.above (omega arith)) found,
          shows3,
        )
      where
        Has : Rid → Type 0
        Has rid = (j : ℕ) × (j ≤ node.n) × HasRow content height (node.child j) rid

        -- A row with the key is below no other child.
        only :
            (at j : ℕ) (r : Rid)
            → at ≤ node.n
            → j ≤ node.n
            → ((i : ℕ) → i < at → key (node.row_ptr i) ≤ target)
            → (at < node.n → target < key (node.row_ptr at))
            → key r ≡ target
            → Separated content key node j r
            → j ≡ at
        only at j r to le below above e (lower, upper) = elim (ℕ_discrete j at) [
          | yes p ↦ p
          | no np ↦ elim (lt_or_ge j at) [
            | inl lt ↦ absurd (omega (arith, below j lt, upper j (omega arith) (omega arith), e))
            | inr ge ↦ absurd (omega (arith, above (omega arith), lower at (omega arith), e))
          ]
        ]

        widen :
            (at : ℕ) (rid : Rid)
            → at ≤ node.n
            → ((i : ℕ) → i < at → key (node.row_ptr i) ≤ target)
            → (at < node.n → target < key (node.row_ptr at))
            → Found (HasRow content height (node.child at)) key target rid
            → Found Has key target rid
        widen at rid to below above (hit has e) = hit (at, to, has) e
        widen at rid to below above (missed failed none_has) = missed failed λ r (j, le, has) e.
            let here = only at j r to le below above e (apart j le r has) in
            none_has r (subst (λ i. HasRow content height (node.child i) r) here has) e

    -- The page at an address is fetched and read.
    visit :
        (A : Type 0) (body : TreePage → Exec S A) (addr : ℤ) (held : List ℕ) (budget : ℕ) (s : S)
        → addr ≡ page_addr (page_of addr)
        → page_of addr * page_size < size
        → length held < cache_page
        → laws.Shows content size held (suc (suc budget)) s
        → (s' : S) × ((get_page addr >> (load addr >>= body)) s ≡ body (content (page_of addr)) s')
          × laws.Shows content size (page_of addr ∷ held) budget s'
    visit A body addr held budget s aligned below room shows =
        let n = page_of addr in
        let (s1, got, shows1) = laws.get content size held (suc budget) s n below room shows in
        let (s2, loaded, shows2) =
          laws.load content size (n ∷ held) budget s1 n (omega (arith, count-cons_self n held))
            below shows1 in
        (
          s2,
          bind-some (get_page addr) (λ _. load addr >>= body) s s1 tt
                (ap (λ a. get_page a s) aligned ∙ got)
              ∙ bind-some (load addr) body s1 s2 (content n) (ap (λ a. load a s1) aligned ∙ loaded),
          shows2,
        )

    three_more : (h b : ℕ) → 3 * suc h + b ≡ suc (suc (suc (3 * h + b)))
    three_more h b = omega arith

    search_entry-Ends :
        (fuel height : ℕ) (addr : ℤ) (held : List ℕ) (last : ℕ) (s : S)
        → height ≤ fuel
        → length held < cache_page
        → IsTree content key size height addr
        → laws.Shows content size held (3 * height + last) s
        → Ends (search_entry pages cmp chars len fuel addr) (HasRow content height addr) held last s
    unfolding search_entry
    search_entry-Ends fuel zero addr held last s le room tree shows = absurd tree
    search_entry-Ends zero (suc height) addr held last s le room tree shows = absurd (omega arith)
    search_entry-Ends (suc fuel) (suc height) addr held last s le room (aligned, below, branches)
          shows =
        let node = node_at content addr in
        let budget = 3 * height + last in
        let body : TreePage → Exec S Rid =
          λ page. if page.node.leaf then at_leaf page.node addr else at_inner fuel page.node addr in
        let (s1, e, shows1) =
          visit Rid body addr held (suc budget) s aligned below room
            (subst (λ b. laws.Shows content size held b s) (three_more height last) shows) in
        let leaf : Exec S Rid = at_leaf node addr in
        let inner : Exec S Rid = at_inner fuel node addr in
        let in_leaf : Rid → Type 0 = λ r. (j : ℕ) × (j < node.n) × (node.row_ptr j ≡ r) in
        let in_child : Rid → Type 0 =
          λ r. (j : ℕ) × (j ≤ node.n) × HasRow content height (node.child j) r in
        elim (Bool-cases node.leaf) [
          | inl is_leaf ↦
              let (s2, rid, e', found, shows2) =
                leaf-Ends compares held budget (page_of addr) s1 shows1 node in_leaf
                  (λ j lt. (j, lt, refl)) (λ r has. has) in
              (
                s2,
                rid,
                e
                    ∙ ap (λ c. (if c then leaf else inner) s1) is_leaf
                    ∙ ap (λ a. at_leaf node a s1) aligned
                    ∙ e',
                subst (λ c. Found (λ r. if c then in_leaf r else in_child r) key target rid)
                    (sym is_leaf) found,
                spend (3 * height) last held s2 shows2,
              )
          | inr is_inner ↦
              let children =
                subst
                  (λ c.
                    if c
                    then Unit
                    else ((j : ℕ)
                        → j ≤ node.n
                        → IsTree content key size height (node.child j)
                          × ((rid : Rid)
                              → HasRow content height (node.child j) rid
                              → Separated content key node j rid)))
                  is_inner branches in
              let (s2, rid, e', found, shows2) =
                inner-Ends fuel height held budget last (page_of addr) s1 node shows1
                  (λ j le'. (children j le').1)
                  (λ j s' le' shows'.
                    search_entry-Ends fuel height (node.child j) held last s' (omega arith) room
                      (children j le').0 shows') in
              (
                s2,
                rid,
                e
                    ∙ ap (λ c. (if c then leaf else inner) s1) is_inner
                    ∙ ap (λ a. at_inner fuel node a s1) aligned
                    ∙ e',
                subst (λ c. Found (λ r. if c then in_leaf r else in_child r) key target rid)
                    (sym is_inner) found,
                shows2,
              )
        ]

    -- Over any pages that follow the laws of a file, with a comparison that orders keys and reads no
    -- page of the index: in an index whose pages make a tree of at most `height` levels, the search
    -- returns a row of the tree with the key, or the row of a failed search if the tree has none. The
    -- pages are as they were, and all pages that it asked for are released. The fuel is at least the
    -- height, one more page may be held, and three accesses for each level and for page 0 are left.
    pub b_tree_search-Found :
        (fuel height : ℕ) (held : List ℕ) (last : ℕ) (s : S)
        → height ≤ fuel
        → length held < cache_page
        → IsIndex content key size height
        → laws.Shows content size held (3 * suc height + last) s
        → (s' : S) × (rid : Rid) × (b_tree_search pages cmp chars len fuel s ≡ some (rid, s'))
          × Found (InIndex content height) key target rid
          × laws.Shows content size held last s'
    unfolding b_tree_search
    b_tree_search-Found fuel height held last s le room (some_size, tree) shows =
        let r = root content in
        let go : Exec S Rid = search_entry pages cmp chars len fuel r in
        let none_there : Exec S Rid = pure failed_rid in
        let budget = 3 * height + last in
        let body : TreePage → Exec S Rid = λ page.
          release (pos 0)
          >> (if page.ctrl.root_node =ℤ minus_one
              then pure failed_rid
              else search_entry pages cmp chars len fuel page.ctrl.root_node) in
        let (s1, e, shows1) =
          visit Rid body (pos 0) held (suc budget) s refl some_size room
            (subst (λ b. laws.Shows content size held b s) (three_more height last) shows) in
        let (s2, freed, shows2) =
          laws.release content size (0 ∷ held) budget s1 0 (omega (arith, count-cons_self 0 held))
            shows1 in
        let kept =
          subst (λ h. laws.Shows content size h budget s2) (remove-cons_self 0 held) shows2 in
        let e' =
          e
          ∙ bind-some (release (pos 0)) (λ _. if r =ℤ minus_one then none_there else go) s1 s2 tt
              freed in
        elim (Bool-cases (r =ℤ minus_one)) [
          | inl no_root ↦ (
            s2,
            failed_rid,
            e' ∙ ap (λ c. (if c then none_there else go) s2) no_root,
            subst
                (λ c.
                  Found (λ rid. if c then ⊥ else HasRow content height r rid) key target failed_rid)
                (sym no_root) (missed refl λ rid has. absurd has),
            spend (3 * height) last held s2 kept,
          )
          | inr some_root ↦
              let (s3, rid, found_it, found, shows3) =
                search_entry-Ends fuel height r held last s2 le room
                  (subst (λ c. if c then Unit else IsTree content key size height r) some_root tree)
                  kept in
              (
                s3,
                rid,
                e' ∙ ap (λ c. (if c then none_there else go) s2) some_root ∙ found_it,
                subst
                    (λ c.
                      Found (λ rid. if c then ⊥ else HasRow content height r rid) key target rid)
                    (sym some_root) found,
                shows3,
              )
        ]
