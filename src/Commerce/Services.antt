-- ===== src/Commerce/Services.antt =====
-- apps/web/lib/services.ts, createServices: the operations on an order as the service offers them.
use agentready_commerce.Prelude.{String, Bool, Option, List, get, Host, Call, Outcome}
use agentready_commerce.Domain.Types.{PurchaseMandate}
use agentready_commerce.Domain.Canonical.{field, end, text, boolean}
use agentready_commerce.Core.Types.{
  approval_grant, payment_initiate, payment_verify, x402_order_prepare, x402_order_confirm,
  fulfilment_complete, compensation_refund,
}
use agentready_commerce.Core.Store.{OperationStore}
use agentready_commerce.Core.Coordinator.{canonical_request_hash}
use agentready_commerce.Payments.Types.{PaymentAdapter}
use agentready_commerce.Commerce.Step.{Reply, Order}
use agentready_commerce.Commerce.Approve.{approve_order}
use agentready_commerce.Commerce.Pay.{pay_order}
use agentready_commerce.Commerce.Verify.{verify_order}
use agentready_commerce.Commerce.AgentPay.{prepare_order}
use agentready_commerce.Commerce.Confirm.{confirm_order}
use agentready_commerce.Commerce.Fulfil.{fulfil_order, compensate_order}
use agentready_commerce.Commerce.Shop.{
  Shop, approve_kind, payment_kind, verify_kind, agent_pay_kind, delivery_kind, run_operation,
}

module _ (host : Host) (store : OperationStore Reply) where
  open store use {State}

  abbrev Answer : Type 0
  Answer = Outcome Reply × Shop State

  unfoldable pub approve : Call → Shop State → String → String → String → Answer
  unfolding run_operation
  approve call shop order digest id =
      let hash =
        canonical_request_hash host approval_grant
          (field "orderId" (text order) (field "digest" (text digest) end)) in
      run_operation store approve_kind call id hash order
        (λ o. approve_order host call order o digest) shop

  -- `mandates.get(session.customerId)`.
  abbrev pub mandate_of : Shop State → Order → Option PurchaseMandate
  mandate_of shop o = get shop.mandates o.session.customer_id

  unfoldable pub initiate_payment :
      List PaymentAdapter → Call → Shop State → String → String → String → Answer
  unfolding run_operation
  initiate_payment adapters call shop order rail id =
      let hash =
        canonical_request_hash host payment_initiate
          (field "orderId" (text order) (field "rail" (text rail) end)) in
      run_operation store payment_kind call id hash order
        (λ o. pay_order host call order o rail (mandate_of shop o) adapters) shop

  -- The signature is not part of the hash of the request.
  unfoldable pub verify_payment :
      PaymentAdapter → Call → Shop State → String → String → String → String → String → Answer
  unfolding run_operation
  verify_payment adapter call shop order external payment signature id =
      let hash = canonical_request_hash host payment_verify (
        field "orderId" (text order) (
          field "externalOrderId" (text external)
            (field "externalPaymentId" (text payment) end))) in
      run_operation store verify_kind call id hash order
        (λ o. verify_order host (λ q. q) order o external payment signature adapter) shop

  unfoldable pub prepare_x402_order_payment : Bool → Call → Shop State → String → String → Answer
  unfolding run_operation
  prepare_x402_order_payment is_mock call shop order id =
      let hash =
        canonical_request_hash host x402_order_prepare (field "orderId" (text order) end) in
      run_operation store (agent_pay_kind x402_order_prepare) call id hash order
        (λ o. prepare_order host call is_mock order o (mandate_of shop o)) shop

  unfoldable pub confirm_x402_order_payment : Call → Shop State → String → String → String → Answer
  unfolding run_operation
  confirm_x402_order_payment call shop order identifier id =
      let hash =
        canonical_request_hash host x402_order_confirm
          (field "orderId" (text order) (field "paymentIdentifier" (text identifier) end)) in
      run_operation store (agent_pay_kind x402_order_confirm) call id hash order
        (λ o. confirm_order host order o identifier) shop

  unfoldable pub fulfil : Call → Shop State → String → Bool → String → Answer
  unfolding run_operation
  fulfil call shop order fail id =
      let hash =
        canonical_request_hash host fulfilment_complete
          (field "orderId" (text order) (field "fail" (boolean fail) end)) in
      run_operation store (delivery_kind fulfilment_complete) call id hash order
        (λ o. fulfil_order order o fail) shop

  unfoldable pub compensate : PaymentAdapter → Call → Shop State → String → String → Answer
  unfolding run_operation
  compensate adapter call shop order id =
      let hash =
        canonical_request_hash host compensation_refund (field "orderId" (text order) end) in
      run_operation store (delivery_kind compensation_refund) call id hash order
        (λ o. compensate_order order (λ q. q) o adapter) shop
