-- ===== src/Chain/Typed/Steps.antt =====
-- Steps whose events are typed, put together: what has been deployed so far is kept as a list of facts.
use arb_bridge_peripherals.Base.{
  ◌≡◌, refl, sym, ap, ◌∙◌, subst, Option, none, some, List, [], ◌∷◌, ◌++◌, Text, String, ok, err,
  failed, Result, All, All-map, All-append, append-nil, append_assoc, Script, Triple, Post,
  Post-bind, Post-then, Post-weaken, ◌>>=◌, ◌>>◌,
}
use arb_bridge_peripherals.Chain.Types.{Layer, Contract, Tx, Event, deployed, sent, submitted}
use arb_bridge_peripherals.Chain.{Network, World, deploy, send, submit}
use arb_bridge_peripherals.Chain.Typed.{
  Fact, Has, Behind, Takes, IsTyped, AllTyped, AllTyped-append, Has-append, Has-last,
}

module _ (N : Network) (l : Layer) where
  -- The log grows, by typed events alone.
  pub record Grows (w t : World N) : Type 0 where
    pub events : List Event
    pub grown : t.log ≡ w.log ++ events
    pub typed : AllTyped l w.log events

  pub Grows-refl : (w : World N) → Grows w w
  Grows-refl w = record { events = []; grown = sym (append-nil w.log); typed = tt }

  pub Grows-trans : (w t u : World N) → Grows w t → Grows t u → Grows w u
  Grows-trans w t u p q = record {
    events = p.events ++ q.events;
    grown = q.grown ∙ ap (λ x. x ++ q.events) p.grown ∙ append_assoc w.log p.events q.events;
    typed =
        AllTyped-append l w.log p.events q.events p.typed
          (subst (λ x. AllTyped l x q.events) p.grown q.typed);
  }

  one : (w t : World N) (e : Event) → t.log ≡ w.log ++ e ∷ [] → IsTyped l w.log e → Grows w t
  one w t e h p = record { events = e ∷ []; grown = h; typed = (p, tt) }

  pub Has-Grows : (w t : World N) → Grows w t → (f : Fact) → Has l w.log f → Has l t.log f
  Has-Grows w t g f h = subst (λ x. Has l x f) (sym g.grown) (Has-append l w.log g.events f h)

  -- Since `w` the log has grown by typed events, and it has the facts.
  pub record Known (w : World N) (fs : List Fact) (t : World N) : Type 0 where
    pub grows : Grows w t
    pub facts : All (Has l t.log) fs

  pub start : (s : World N) → Known s [] s
  start s = record { grows = Grows-refl s; facts = tt }

  -- A step that adds typed events only, and after which its value has the facts.
  abbrev pub Adds : {A : Type 0} → (A → List Fact) → Script (World N) A → World N → Type 0
  Adds facts m s = Triple (λ a t. Known s (facts a) t) (Grows s) m s

  pub Adds-deploy :
      (from : Text) (c : Contract) (s : World N) → Adds (λ a. (c, a) ∷ []) (deploy N l from c) s
  unfolding deploy
  Adds-deploy from c s = record { holds = at (N.deploy l from c s.chain) }
    where
      at :
          (r : Option (Text × N.State))
          → Post
              (λ a t. Known s ((c, a) ∷ []) t)
              (Grows s)
              (elim r as (λ _. Result Text × World N) [
                | none ↦ (err failed, s)
                | some (a, x) ↦ (ok a, record s { chain = x; log = s.log ++ (deployed l c a ∷ []) })
              ])
      at none = Grows-refl s
      at (some (a, x)) = record {
        grows =
            one s (record s { chain = x; log = s.log ++ (deployed l c a ∷ []) }) (deployed l c a)
              refl refl;
        facts = (Has-last l s.log c a, tt);
      }

  pub Adds-send :
      (from : Text) (tx : Tx) (s : World N) (c : Contract)
      → Behind l s.log c tx.to
      → Takes l s.log c tx.calldata
      → Adds (λ _. []) (send N l from tx) s
  unfolding send
  Adds-send from tx s c behind takes = record { holds = at (N.send l from tx s.chain) }
    where
      at :
          (r : Option (Text × N.State))
          → Post
              (λ _ t. Known s [] t)
              (Grows s)
              (elim r as (λ _. Result Text × World N) [
                | none ↦ (err failed, s)
                | some (h, x) ↦ (ok h, record s { chain = x; log = s.log ++ (sent l from tx ∷ []) })
              ])
      at none = Grows-refl s
      at (some (h, x)) = record {
        grows =
            one s (record s { chain = x; log = s.log ++ (sent l from tx ∷ []) }) (sent l from tx)
              refl (refl, (c, behind, takes));
        facts = tt;
      }

  pub Adds-submit :
      (name : String) (a : Text) (args : List Text) (s : World N) (c : Contract)
      → Has l s.log (c, a)
      → Adds (λ _. []) (submit N name a args) s
  unfolding submit
  Adds-submit name a args s c h = record {
    holds = record {
      grows =
          one s (record s { log = s.log ++ (submitted name a args ∷ []) }) (submitted name a args)
            refl (c, h);
      facts = tt;
    };
  }

  module _ {w : World N} {fs : List Fact} where
    -- After a step the facts are those of its value and those from before.
    pub after :
        {A B : Type 0} {Q : B → World N → Type 0} {facts : A → List Fact} (m : Script (World N) A)
        (f : A → Script (World N) B) (s : World N)
        → Known w fs s
        → Adds facts m s
        → ((a : A) (t : World N) → Known w (facts a ++ fs) t → Triple Q (Grows w) (f a) t)
        → Triple Q (Grows w) (m >>= f) s
    after m f s known h k =
        Post-bind m f s
          (Post-weaken m s (λ a t h'. h') (λ t h'. Grows-trans w s t known.grows h') h)
          (λ a t new. k a t (record {
            grows = Grows-trans w s t known.grows new.grows;
            facts =
                All-append (Has l t.log) _ fs new.facts
                  (All-map fs (Has-Grows s t new.grows) known.facts);
          }))

    pub after_then :
        {A B : Type 0} {Q : B → World N → Type 0} (m : Script (World N) A) (n : Script (World N) B)
        (s : World N)
        → Known w fs s
        → Adds (λ _. []) m s
        → ((t : World N) → Known w fs t → Triple Q (Grows w) n t)
        → Triple Q (Grows w) (m >> n) s
    after_then m n s known h k =
        Post-then m n s
          (Post-weaken m s (λ a t h'. h') (λ t h'. Grows-trans w s t known.grows h') h)
          (λ a t new. k t (record {
            grows = Grows-trans w s t known.grows new.grows;
            facts = All-map fs (Has-Grows s t new.grows) known.facts;
          }))
