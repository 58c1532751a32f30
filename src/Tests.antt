-- ===== src/Tests.antt =====
-- Concrete runs of the program: an account with a domain policy, a mailbox of two messages of which one is
-- from the domain, and the requests on them.
mod Codec
mod Data
mod Paging
mod Probing
mod Refreshing
mod Remote
mod Serving
mod Setup
mod Small
