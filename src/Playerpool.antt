-- ===== src/Playerpool.antt =====
-- The release of a player into the country's pool: backend/internal/playerpool/sign.go,
-- ReleasePlayer, on the rows of the transfer market.
use touchline.Common.{
  ℕ, ◌≡◌, refl, inl, inr, Bool, true, false, ◌&&◌, not, none, List, [], ◌∷◌, arith, ltb, ◌==◌,
  if◌then◌else◌, Bool-cases,
}
use touchline.Transfer.Rows.{
  Player, Contract, WageCommitment, terminated, Market, player_not_found, no_active_contract,
  player_released,
}
use touchline.Transfer.Tx.{
  Tx, ◌>>=◌, ◌>>◌, read, need, refuse_when, write, Ensures, Ensures-need, Ensures-passed,
}
use touchline.Transfer.Outside.{Outside}
use touchline.Transfer.Threads.{find_player}
use touchline.Transfer.Completion.{emit, is_in_force, is_terminated}
use touchline.Transfer.Invariant.{club_of}

-- The active contracts of the player, at any club, end today.
abbrev pub end_contracts : ℕ → ℕ → List Contract → List Contract
end_contracts today player [] = []
end_contracts today player (c ∷ contracts) =
    (if c.player == player && is_in_force c.status
      then record c { status = terminated; end_date = today }
      else c)
    ∷ end_contracts today player contracts

abbrev pub has_active_contract : ℕ → List Contract → Bool
has_active_contract player [] = false
has_active_contract player (c ∷ contracts) =
    if c.player == player && is_in_force c.status
    then true
    else has_active_contract player contracts

abbrev pub was_ended : ℕ → ℕ → List Contract → Bool
was_ended contract player [] = false
was_ended contract player (c ∷ contracts) =
    if c.id == contract && c.player == player && is_terminated c.status
    then true
    else was_ended contract player contracts

abbrev pub end_wages : ℕ → ℕ → List Contract → List WageCommitment → List WageCommitment
end_wages today player contracts [] = []
end_wages today player contracts (w ∷ commitments) =
    (if was_ended w.contract player contracts && ltb today w.end_date
      then record w { end_date = today }
      else w)
    ∷ end_wages today player contracts commitments

-- club_id = NULL, status = 'free_agent'.
abbrev pub to_pool : ℕ → List Player → List Player
to_pool player [] = []
to_pool player (p ∷ players) =
    (if p.id == player then record p { club = none; is_active = false } else p)
    ∷ to_pool player players

abbrev pub released : Outside → ℕ → Market → Market
released env player m =
    let contracts = end_contracts env.today player m.contracts in
    emit player_released player (record m {
      players = to_pool player m.players;
      contracts = contracts;
      commitments = end_wages env.today player contracts m.commitments;
    })

unfoldable pub release_player : Outside → ℕ → Tx (Unit {0})
release_player env player = do
  p ← need (find_player player (← read (λ m. m.players))) player_not_found
  need p.club no_active_contract
  refuse_when (not (has_active_contract player (← read (λ m. m.contracts)))) no_active_contract
  write (released env player)

club_of-to_pool :
    (player : ℕ) (players : List Player) → club_of player (to_pool player players) ≡ none
club_of-to_pool player [] = refl
club_of-to_pool player (p ∷ players) = elim (Bool-cases (p.id == player)) [
  | inl hit ↦ ground (arith, hit)
  | inr miss ↦ ground (arith, miss, club_of-to_pool player players)
]

-- A release that goes through leaves the player without a club and without a contract in force, and
-- every bid and every listing as it was: a bid that was open on the player stays open.
pub release_player-keeps_bids :
    (env : Outside) (player : ℕ) (m : Market)
    → Ensures
        (λ _ r.
          (club_of player r.players ≡ none)
          × (has_active_contract player r.contracts ≡ false)
          × (r.bids ≡ m.bids)
          × (r.listings ≡ m.listings))
        (release_player env player m)
unfolding release_player
release_player-keeps_bids env player m =
    let Q : Unit {0} → Market → Type 0 = λ _ r.
      (club_of player r.players ≡ none)
      × (has_active_contract player r.contracts ≡ false)
      × (r.bids ≡ m.bids)
      × (r.listings ≡ m.listings) in
    Ensures-need Q m (find_player player m.players) player_not_found _ (λ p _.
      Ensures-need Q m p.club no_active_contract _ (λ club _.
        Ensures-passed Q m (not (has_active_contract player m.contracts)) no_active_contract _ (λ _.
          (
            club_of-to_pool player m.players,
            none_in_force env.today player m.contracts,
            refl,
            refl,
          ))))
  where
    none_in_force :
        (today player : ℕ) (contracts : List Contract)
        → has_active_contract player (end_contracts today player contracts) ≡ false
    none_in_force today player [] = refl
    none_in_force today player (c ∷ contracts) =
        elim (Bool-cases (c.player == player && is_in_force c.status)) [
          | inl hit ↦ ground (arith, hit, none_in_force today player contracts)
          | inr other ↦ ground (arith, other, none_in_force today player contracts)
        ]
