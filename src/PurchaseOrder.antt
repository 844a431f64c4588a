-- ===== src/PurchaseOrder.antt =====
-- Purchase orders, apps/api/src/purchase-order/purchase-order.service.ts.
pub mod Award
pub mod Issue
pub mod Status
