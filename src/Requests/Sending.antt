-- ===== src/Requests/Sending.antt =====
-- Transfers that are sent at once keep the tables valid.
use custody_service.Common.{ℕ, String, Option, none, some, ℤ, pos, ◌≤ℤ◌}
use custody_service.Models.{Vault, Asset, Wallet}
use custody_service.Outside.{Outside}
use custody_service.Session.Keeping.{IsKeeping, keeping, given-IsKeeping}
use custody_service.Transfers.{new_row}
use custody_service.Custody.{Custody}
use custody_service.Api.Direct.{
  ExternalTransferRequest, place_direct, create_external_transfer_direct,
}
use custody_service.Api.Creation.{create_external_transfer}
use custody_service.Api.Internal.{
  InternalTransferRequest, Destination, destination_of, whitelisted, payment_to, send_internal,
  create_internal_transfer,
}
use custody_service.Requests.Validity.{IsValid}
use custody_service.Requests.Steps.{save-IsKeeping, on_wallets-IsKeeping, created-IsKeeping}
use custody_service.Requests.Creating.{
  IsSoundAmount, refuse_existing-IsKeeping, http_or_500-IsKeeping, create_selected-IsKeeping,
}

module _ (o : Outside) where
  module _ (q : InternalTransferRequest) where
    whitelisted-IsKeeping :
        (v : Vault) (a : Asset) (s : Option String) → IsKeeping IsValid (whitelisted o v a s)
    whitelisted-IsKeeping v a none = search keeping
    whitelisted-IsKeeping v a (some s) = search keeping depth 12

    destination_of-IsKeeping :
        (v : Vault) (a : Asset) (i : Option ℕ) → IsKeeping IsValid (destination_of o v a q i)
    unfolding destination_of
    destination_of-IsKeeping v a none = whitelisted-IsKeeping v a q.to_address
    destination_of-IsKeeping v a (some i) = search keeping depth 12

    payment_to-IsKeeping :
        (request_id : String) (v : Vault) (a : Asset) (d : Destination) (i : Option ℕ)
        → IsKeeping IsValid (payment_to request_id q v a d i)
    payment_to-IsKeeping request_id v a d none = search keeping
    payment_to-IsKeeping request_id v a d (some i) = search keeping depth 12

    send_internal-IsKeeping :
        (request_id : String) (v : Vault) (a : Asset) (w : Wallet) (n : ℤ) (d : Destination)
        → pos 0 ≤ℤ n
        → IsKeeping IsValid (send_internal o request_id q v a w n d)
    unfolding send_internal new_row
    send_internal-IsKeeping request_id v a w n d k =
        search
          (keeping, on_wallets-IsKeeping, payment_to-IsKeeping, created-IsKeeping, save-IsKeeping)
          depth 20

    pub create_internal_transfer-IsKeeping :
        IsSoundAmount o q.amount → IsKeeping IsValid (create_internal_transfer o q)
    unfolding create_internal_transfer
    create_internal_transfer-IsKeeping sound =
        search
          (
            keeping,
            given-IsKeeping,
            sound,
            refuse_existing-IsKeeping o,
            destination_of-IsKeeping,
            send_internal-IsKeeping,
            http_or_500-IsKeeping,
          )
          depth 24

  module _ (q : ExternalTransferRequest) (sound : IsSoundAmount o q.amount) where
    place_direct-IsKeeping :
        (request_id : String) (i j : ℕ) → IsKeeping IsValid (place_direct o request_id q i j)
    unfolding place_direct new_row
    place_direct-IsKeeping request_id i j =
        search
          (
            keeping,
            given-IsKeeping,
            sound,
            refuse_existing-IsKeeping o,
            on_wallets-IsKeeping,
            created-IsKeeping,
            save-IsKeeping,
          )
          depth 30 fits 20000

    direct-IsKeeping : (i j : ℕ) → IsKeeping IsValid (create_external_transfer_direct o q i j)
    unfolding create_external_transfer_direct
    direct-IsKeeping i j = search (keeping, place_direct-IsKeeping) depth 12

    pub create_external_transfer-IsKeeping :
        (c : Custody) (i j : Option ℕ) → IsKeeping IsValid (create_external_transfer o c q i j)
    unfolding create_external_transfer
    create_external_transfer-IsKeeping c none j = create_selected-IsKeeping o c q sound _
    create_external_transfer-IsKeeping c (some i) none = create_selected-IsKeeping o c q sound _
    create_external_transfer-IsKeeping c (some i) (some j) = direct-IsKeeping i j
