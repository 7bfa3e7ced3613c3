-- ===== src/Tests.antt =====
-- Runs of the program on concrete data: an instance of each theorem.
mod Memory
mod Limits
mod Keys
mod Proxy
mod Guard
mod Cache
mod Custom
mod Analytics
mod Batches
mod Accounts
mod Sockets
mod Billing
mod Members
mod Service
mod Browser
mod Pages
mod Stripe
mod Usage
