-- ===== src/Gui/Redraw/Named.antt =====
-- Which window the pick buffer names after a redraw (system/gui.cpp).
use shipwreck.Base.{
  ℕ, zero, suc, ◌+◌, ◌*◌, ◌<◌, ◌≤◌, ◌≡◌, ◌∙◌, refl, ap, true, none, some, List, [], ◌∷◌,
  if◌then◌else◌, arith, Bool-cases, Option-cases, inl, inr, ◌≢◌, length,
}
use shipwreck.Base.Int.{ℤ, pos, ◌≤ℤ◌, ◌<ℤ◌}
use shipwreck.Gui.Shapes.{Point, Rect}
use shipwreck.Gui.Redraw.{Win, Draw, max_window_levels, gui_redraw_rect}
use shipwreck.Gui.Redraw.Partition.{within}
use shipwreck.Gui.Redraw.Topmost.{hits, topmost, gui_redraw_rect_lem}
use shipwreck.Gui.Redraw.Paint.{pixel}
use shipwreck.Gui.Redraw.Pick.{
  Picks, Frames, OnScreen, each_draw, pick_draw, pick_draws, area_lem, within_bounds,
}

-- What windows leave of a pixel's number, one after the other.
abbrev pub last_of : (Win → ℕ → ℕ) → List Win → ℕ → ℕ
last_of g [] old = old
last_of g (w ∷ ws) old = last_of g ws (g w old)

-- The number that a window on a point leaves there: its own, or for a frame that of the topmost child
-- there, and none where no child has the point.
unfoldable pub named : ℕ → (ℕ → ℕ) → Frames → Point → Win → ℕ → ℕ
named zero gids frames p w old = elim (frames w.id) [ none ↦ gids w.id | some cs ↦ old ]
named (suc levels) gids frames p w old = elim (frames w.id) [
  | none ↦ gids w.id
  | some cs ↦ last_of (named levels gids frames p) (topmost p cs) old
]

hit_first : (p : Point) (d : Draw) (ds : List Draw) → within p d.area ≡ true → hits p (d ∷ ds) ≢ []
unfolding hits
hit_first p d ds e q = ground (arith, e, q)

hit_behind : (p : Point) (d : Draw) (ds : List Draw) → hits p ds ≢ [] → hits p (d ∷ ds) ≢ []
unfolding hits
hit_behind p d ds n q = ground (arith, n, q)

no_hits :
    (p : Point) (clip : Rect) (ws : List Win)
    → (if within p clip then ws else []) ≢ []
    → within p clip ≡ true
no_hits p clip ws n = ground (arith, n)

-- No frame has more children than a redraw looks at.
abbrev pub Narrow : Frames → Type 0
Narrow frames = (id : ℕ) (cs : List Win) → frames id ≡ some cs → length cs ≤ max_window_levels

module _ (width : ℕ) (px py : ℕ) (h : px < width) where
  abbrev offset : ℤ
  offset = pos (py * width + px)

  -- All draws stay on the screen.
  abbrev Drawable : List Draw → Type 0
  Drawable ds = (p : Point) → hits p ds ≢ [] → (pos 0 ≤ℤ p.x) × (pos 0 ≤ℤ p.y) × (p.x <ℤ pos width)

  -- A draw stores what `g` says of its window, and on its area alone.
  abbrev Stores : (Draw → Picks → Picks) → (Win → ℕ → ℕ) → Type 0
  Stores f g =
      (d : Draw) (picks : Picks)
      → OnScreen width d.area
      → f d picks offset
        ≡ (if within (pixel px py) d.area then g d.win (picks offset) else picks offset)

  each_draw_lem :
      (f : Draw → Picks → Picks) (g : Win → ℕ → ℕ)
      → Stores f g
      → (ds : List Draw) (picks : Picks) → Drawable ds
      → each_draw f ds picks offset ≡ last_of g (hits (pixel px py) ds) (picks offset)
  unfolding each_draw hits
  each_draw_lem f g st [] picks on = refl
  each_draw_lem f g st (d ∷ ds) picks on =
      each_draw_lem f g st ds (f d picks) (λ p n. on p (hit_behind p d ds n))
      ∙ ap (last_of g (hits (pixel px py) ds)) (st d picks (λ p e. on p (hit_first p d ds e)))
      ∙ elim (Bool-cases (within (pixel px py) d.area)) [ inl e ↦ rw e refl | inr e ↦ rw e refl ]

  redraw_lem :
      (f : Draw → Picks → Picks) (g : Win → ℕ → ℕ)
      → Stores f g
      → (clip : Rect) (ws : List Win) (picks : Picks) → length ws ≤ max_window_levels
      → OnScreen width clip
      → each_draw f (gui_redraw_rect clip ws) picks offset ≡ (
          if within (pixel px py) clip
          then last_of g (topmost (pixel px py) ws) (picks offset)
          else picks offset)
  redraw_lem f g st clip ws picks n on =
      each_draw_lem f g st (gui_redraw_rect clip ws) picks
        (λ p e. on p (no_hits p clip (topmost p ws) (λ q. e (gui_redraw_rect_lem p clip ws n ∙ q))))
      ∙ ap (λ l. last_of g l (picks offset)) (gui_redraw_rect_lem (pixel px py) clip ws n)
      ∙ elim (Bool-cases (within (pixel px py) clip)) [ inl e ↦ rw e refl | inr e ↦ rw e refl ]

  pick_draw-Stores :
      (levels : ℕ) (gids : ℕ → ℕ) (frames : Frames)
      → Narrow frames
      → Stores (pick_draw levels width gids frames) (named levels gids frames (pixel px py))
  unfolding pick_draw named
  pick_draw-Stores zero gids frames nar d picks on = elim (Option-cases (frames d.win.id)) [
    | inl e ↦ rw (e, pick_draw, named) (area_lem width d.area (gids d.win.id) picks px py h on)
    | inr (cs, e) ↦
        rw (e, pick_draw, named)
          (elim (Bool-cases (within (pixel px py) d.area)) [
            | inl e ↦ rw e refl
            | inr e ↦ rw e refl
          ])
  ]
  pick_draw-Stores (suc levels) gids frames nar d picks on = elim (Option-cases (frames d.win.id)) [
    | inl e ↦ rw (e, pick_draw, named) (area_lem width d.area (gids d.win.id) picks px py h on)
    | inr (cs, e) ↦
        rw (e, pick_draw, named)
          (redraw_lem (pick_draw levels width gids frames) (named levels gids frames (pixel px py))
            (pick_draw-Stores levels gids frames nar) d.area cs picks (nar d.win.id cs e) on)
  ]

-- For at most 256 windows, and as many in each frame, and a clip that is on the screen: once a redraw has
-- stored the numbers of the windows that it draws, the pick buffer names at each pixel of the clip the
-- topmost window there, or for a frame the topmost of its children there, and so on; it keeps the old
-- number where there is none, and outside the clip.
pub pick_draws-topmost :
    (levels width : ℕ) (gids : ℕ → ℕ) (frames : Frames) (clip : Rect) (ws : List Win)
    (picks : Picks) (px py : ℕ)
    → length ws ≤ max_window_levels
    → Narrow frames
    → pos 0 ≤ℤ clip.l
    → pos 0 ≤ℤ clip.t
    → clip.r ≤ℤ pos width
    → px < width
    → pick_draws levels width gids frames (gui_redraw_rect clip ws) picks (pos (py * width + px))
      ≡ (if within (pixel px py) clip
          then last_of
              (named levels gids frames (pixel px py))
              (topmost (pixel px py) ws)
              (picks (pos (py * width + px)))
          else picks (pos (py * width + px)))
unfolding pick_draws
pick_draws-topmost levels width gids frames clip ws picks px py n nar hl ht hr h =
    redraw_lem width px py h (pick_draw levels width gids frames)
      (named levels gids frames (pixel px py))
      (pick_draw-Stores width px py h levels gids frames nar) clip ws picks n on_clip
  where
    on_clip : OnScreen width clip
    on_clip p e =
        let b = within_bounds p clip e in
        (omega (arith, b.0, hl), omega (arith, b.2, ht), omega (arith, b.1, hr))

-- The window `v` that `w` shows at a point: itself if it is no frame, else what the topmost of its
-- children there shows.
pub data Points (frames : Frames) (p : Point) (v : Win) : ℕ → Win → Type 0 where
  plain : (levels : ℕ) → frames v.id ≡ none → Points frames p v levels v
  within_frame :
      (levels : ℕ) (w c : Win) (cs : List Win)
      → frames w.id ≡ some cs
      → topmost p cs ≡ c ∷ []
      → Points frames p v levels c
      → Points frames p v (suc levels) w

pub named-Points :
    (frames : Frames) (p : Point) (v : Win) (gids : ℕ → ℕ) (levels : ℕ) (w : Win) (old : ℕ)
    → Points frames p v levels w
    → named levels gids frames p w old ≡ gids v.id
unfolding named
named-Points frames p v gids zero _ old (plain _ e) = rw (e, named) refl
named-Points frames p v gids (suc levels) _ old (plain _ e) = rw (e, named) refl
named-Points frames p v gids _ _ old (within_frame levels w c cs e top q) =
    rw (e, named, top) (named-Points frames p v gids levels c old q)
