-- ===== src/Tests/Direct.antt =====
-- A payout from a named vault, taken and refused by the provider.
use custody_service.Common.{true, [], ◌≡◌, refl, none, some, pos, ◌-ℤ◌}
use custody_service.Ledger.{reserve_balance}
use custody_service.Session.{respond}
use custody_service.Api.Direct.{ExternalTransferRequest, place_direct}
use custody_service.Api.Direct.Placement.{IsPayable, asked, sent_or_not, place_direct-Sends}
use custody_service.Tests.Data.{db, world, wallets, taking, ether, hot_vault, wallet}

abbrev request : ExternalTransferRequest
request = record {
  to_address = "0xb";
  amount = "20";
  request_id = some "new";
  blockchain = none;
  asset = none;
  contract_address = none;
  amount_usd = none;
  destination_tag = none;
  note = none;
}

payable :
    IsPayable taking request 1 1 db "new"
      (hot_vault 1 "one" true)
      ether
      (wallet 10 1 (pos 100) (pos 40))
      (pos 20)
      (reserve_balance 10 (pos 20) wallets).0
unfolding reserve_balance ◌-ℤ◌
payable = record {
  named = refl;
  fresh = refl;
  vault = refl;
  asset = refl;
  wallet = refl;
  amount = refl;
  enough = refl;
  reserves = refl;
}

place_direct-Sends_example :
    respond (place_direct taking "new" request 1 1) world
    ≡ sent_or_not taking request "new"
        (hot_vault 1 "one" true)
        ether
        (wallet 10 1 (pos 100) (pos 40))
        (pos 20)
        db
        []
        (reserve_balance 10 (pos 20) wallets).0
        (taking.create_transaction (
          asked taking request "new"
            (hot_vault 1 "one" true)
            ether
            (wallet 10 1 (pos 100) (pos 40))
            (pos 20)))
place_direct-Sends_example =
    place_direct-Sends taking request 1 1 db [] "new" (hot_vault 1 "one" true) ether
      (wallet 10 1 (pos 100) (pos 40)) (pos 20) (reserve_balance 10 (pos 20) wallets).0 payable
