-- ===== src/Chain/Growth.antt =====
-- Logs that grow by events of one kind.
use arb_bridge_peripherals.Base.{
  ◌≡◌, refl, sym, ap, Option, none, some, Text, String, ok, err, failed, Result, Moves, ◌∙◌, List,
  [], ◌∷◌, ◌++◌, IsPreorder, All, All-append, append-nil, append_assoc,
}
use arb_bridge_peripherals.Chain.Types.{Layer, Contract, Tx, Event, deployed, sent, submitted}
use arb_bridge_peripherals.Chain.{Network, World, deploy, send, submit}

pub record Grows (N : Network) (P : Event → Type 0) (w t : World N) : Type 0 where
  pub events : List Event
  pub grown : t.log ≡ w.log ++ events
  pub all_events : All P events

module _ (N : Network) (P : Event → Type 0) where
  pub unchanged-Grows : (w t : World N) → t.log ≡ w.log → Grows N P w t
  unchanged-Grows w t h = record {
    events = [];
    grown = h ∙ sym (append-nil w.log);
    all_events = tt;
  }

  pub one-Grows : (w t : World N) (e : Event) → t.log ≡ w.log ++ (e ∷ []) → P e → Grows N P w t
  one-Grows w t e h p = record { events = e ∷ []; grown = h; all_events = (p, tt) }

  pub Grows-preorder : IsPreorder (Grows N P)
  Grows-preorder = record {
    reflexive = λ w. record { events = []; grown = sym (append-nil w.log); all_events = tt };
    transitive = λ w t u p q. record {
      events = p.events ++ q.events;
      grown = q.grown ∙ ap (λ x. x ++ q.events) p.grown ∙ append_assoc w.log p.events q.events;
      all_events = All-append P p.events q.events p.all_events q.all_events;
    };
  }

  pub deploy-Grows :
      (l : Layer) (from : Text) (c : Contract)
      → ((a : Text) → P (deployed l c a))
      → Moves (Grows N P) (deploy N l from c)
  unfolding deploy
  deploy-Grows l from c h = record { moves = λ w. at w (N.deploy l from c w.chain) }
    where
      at :
          (w : World N) (r : Option (Text × N.State))
          → Grows N P w
              (elim r as (λ _. Result Text × World N) [
                | none ↦ (err failed, w)
                | some (a, s) ↦ (ok a, record w { chain = s; log = w.log ++ (deployed l c a ∷ []) })
              ]).1
      at w none = unchanged-Grows w w refl
      at w (some (a, s)) =
          one-Grows w (record w { chain = s; log = w.log ++ (deployed l c a ∷ []) })
            (deployed l c a) refl (h a)

  pub send-Grows :
      (l : Layer) (from : Text) (tx : Tx)
      → P (sent l from tx)
      → Moves (Grows N P) (send N l from tx)
  unfolding send
  send-Grows l from tx h = record { moves = λ w. at w (N.send l from tx w.chain) }
    where
      at :
          (w : World N) (r : Option (Text × N.State))
          → Grows N P w
              (elim r as (λ _. Result Text × World N) [
                | none ↦ (err failed, w)
                | some (x, s) ↦ (ok x, record w { chain = s; log = w.log ++ (sent l from tx ∷ []) })
              ]).1
      at w none = unchanged-Grows w w refl
      at w (some (x, s)) =
          one-Grows w (record w { chain = s; log = w.log ++ (sent l from tx ∷ []) })
            (sent l from tx) refl h

  pub submit-Grows :
      (name : String) (a : Text) (args : List Text)
      → P (submitted name a args)
      → Moves (Grows N P) (submit N name a args)
  unfolding submit
  submit-Grows name a args h = record {
    moves = λ w.
        one-Grows w (record w { log = w.log ++ (submitted name a args ∷ []) })
          (submitted name a args) refl h;
  }
