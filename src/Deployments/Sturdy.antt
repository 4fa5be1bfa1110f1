-- ===== src/Deployments/Sturdy.antt =====
-- helpers/contracts-deployments.ts and contracts-getters.ts: the vaults of the market of Ethereum, the collateral adapter and the yield manager.
pub mod Addresses
use code4rena_may.Base.{String, Bool, List, []}
use code4rena_may.Effects.{Action, ◌>>=◌, ◌>>◌}
use code4rena_may.Deployments.{
  Deployer, Market, with_save_and_verify, insert_contract_address_in_db, connect,
}

module _ (D : Deployer) where
  unfoldable pub get_lido_vault : Action D.World String
  get_lido_vault = connect D "LidoVault"

  unfoldable pub deploy_lido_vault : Bool → Action D.World String
  deploy_lido_vault verify = D.deploy_yield_manager_libraries verify >>= λ libraries.
      D.construct "LidoVault" libraries >>= λ instance1.
      with_save_and_verify D instance1 "LidoVaultImpl" [] verify >>= λ impl.
      D.addresses_provider
      >> (D.set_address_as_proxy "LIDO_VAULT" impl
          >> (D.set_address "LIDO" (D.param Market.sturdy "Lido")
              >> (D.set_address "STETH_ETH_POOL" (D.param Market.sturdy "CurveswapLidoPool")
                  >> (D.set_address "uniswapRouter" (D.param Market.sturdy "UniswapRouter")
                      >> (D.set_address "WETH" (D.param Market.sturdy "WETH")
                          >> (D.get_address "LIDO_VAULT" >>= λ proxy.
                              insert_contract_address_in_db D "LidoVault" proxy
                              >> get_lido_vault))))))

  unfoldable pub get_yearn_reth_wsteth_vault : Action D.World String
  get_yearn_reth_wsteth_vault = connect D "YearnRETHWstETHVault"

  unfoldable pub deploy_yearn_reth_wsteth_vault_vault : Bool → Action D.World String
  deploy_yearn_reth_wsteth_vault_vault verify =
      D.deploy_yearn_reth_wsteth_vault_libraries verify >>= λ libraries.
      D.construct "YearnRETHWstETHVault" libraries >>= λ instance1.
      with_save_and_verify D instance1 "YearnRETHWstETHVaultImpl" [] verify >>= λ impl.
      D.addresses_provider
      >> (D.set_address_as_proxy "YEARN_RETH_WSTETH_VAULT" impl
          >> (D.set_address "YVRETH_WSTETH" (D.param Market.sturdy "YearnRETHWstETHVault")
              >> (D.set_address "RETH_WSTETH" (D.param Market.sturdy "RETH_WSTETH_LP")
                  >> (D.set_address "WSTETH" (D.param Market.sturdy "WSTETH")
                      >> (D.get_address "YEARN_RETH_WSTETH_VAULT" >>= λ proxy.
                          insert_contract_address_in_db D "YearnRETHWstETHVault" proxy
                          >> get_yearn_reth_wsteth_vault)))))

  unfoldable pub get_convex_rocket_pool_eth_vault : Action D.World String
  get_convex_rocket_pool_eth_vault = connect D "ConvexRocketPoolETHVault"

  unfoldable pub deploy_convex_rocket_pool_eth_vault : Bool → Action D.World String
  deploy_convex_rocket_pool_eth_vault verify = D.construct "ConvexCurveLPVault" [] >>= λ instance1.
      with_save_and_verify D instance1 "ConvexRocketPoolETHVaulttImpl" [] verify >>= λ impl.
      D.addresses_provider
      >> (D.set_address_as_proxy "CONVEX_ROCKET_POOL_ETH_VAULT" impl
          >> (D.set_address "RETH_WSTETH" (D.param Market.sturdy "RETH_WSTETH_LP")
              >> (D.set_address "WSTETH" (D.param Market.sturdy "WSTETH")
                  >> (D.set_address "CRV" (D.param Market.sturdy "CRV")
                      >> (D.set_address "CVX" (D.param Market.sturdy "CVX")
                          >> (D.get_address "CONVEX_ROCKET_POOL_ETH_VAULT" >>= λ proxy.
                              insert_contract_address_in_db D "ConvexRocketPoolETHVault" proxy
                              >> get_convex_rocket_pool_eth_vault))))))

  unfoldable pub get_convex_frax3crv_vault : Action D.World String
  get_convex_frax3crv_vault = connect D "ConvexFRAX3CRVVault"

  unfoldable pub deploy_convex_frax3crv_vault : Bool → Action D.World String
  deploy_convex_frax3crv_vault verify = D.construct "ConvexCurveLPVault" [] >>= λ instance1.
      with_save_and_verify D instance1 "ConvexFRAX3CRVVaultImpl" [] verify >>= λ impl.
      D.addresses_provider
      >> (D.set_address_as_proxy "CONVEX_FRAX_3CRV_VAULT" impl
          >> (D.set_address "CRV" (D.param Market.sturdy "CRV")
              >> (D.set_address "CVX" (D.param Market.sturdy "CVX")
                  >> (D.get_address "CONVEX_FRAX_3CRV_VAULT" >>= λ proxy.
                      insert_contract_address_in_db D "ConvexFRAX3CRVVault" proxy
                      >> get_convex_frax3crv_vault))))

  unfoldable pub get_convex_steth_vault : Action D.World String
  get_convex_steth_vault = connect D "ConvexSTETHVault"

  unfoldable pub deploy_convex_steth_vault : Bool → Action D.World String
  deploy_convex_steth_vault verify = D.construct "ConvexCurveLPVault" [] >>= λ instance1.
      with_save_and_verify D instance1 "ConvexSTETHVaultImpl" [] verify >>= λ impl.
      D.addresses_provider
      >> (D.set_address_as_proxy "CONVEX_STETH_VAULT" impl
          >> (D.set_address "CRV" (D.param Market.sturdy "CRV")
              >> (D.set_address "CVX" (D.param Market.sturdy "CVX")
                  >> (D.get_address "CONVEX_STETH_VAULT" >>= λ proxy.
                      insert_contract_address_in_db D "ConvexSTETHVault" proxy
                      >> get_convex_steth_vault))))

  unfoldable pub get_convex_dola3crv_vault : Action D.World String
  get_convex_dola3crv_vault = connect D "ConvexDOLA3CRVVault"

  unfoldable pub deploy_convex_dola3crv_vault : Bool → Action D.World String
  deploy_convex_dola3crv_vault verify = D.construct "ConvexCurveLPVault" [] >>= λ instance1.
      with_save_and_verify D instance1 "ConvexDOLA3CRVVaultImpl" [] verify >>= λ impl.
      D.addresses_provider
      >> (D.set_address_as_proxy "CONVEX_DOLA_3CRV_VAULT" impl
          >> (D.set_address "CRV" (D.param Market.sturdy "CRV")
              >> (D.set_address "CVX" (D.param Market.sturdy "CVX")
                  >> (D.get_address "CONVEX_DOLA_3CRV_VAULT" >>= λ proxy.
                      insert_contract_address_in_db D "ConvexDOLA3CRVVault" proxy
                      >> get_convex_dola3crv_vault))))

  unfoldable pub get_yield_manager : Action D.World String
  get_yield_manager = connect D "YieldManager"

  unfoldable pub deploy_yield_manager : Bool → Action D.World String
  deploy_yield_manager verify = D.deploy_yield_manager_libraries verify >>= λ libraries.
      D.construct "YieldManager" libraries >>= λ instance1.
      with_save_and_verify D instance1 "YieldManagerImpl" [] verify >>= λ impl.
      D.addresses_provider
      >> (D.set_address_as_proxy "YIELD_MANAGER" impl
          >> (D.get_address "YIELD_MANAGER" >>= λ proxy.
              insert_contract_address_in_db D "YieldManager" proxy >> get_yield_manager))

  unfoldable pub get_collateral_adapter : Action D.World String
  get_collateral_adapter = connect D "CollateralAdapter"

  unfoldable pub deploy_collateral_adapter : Bool → Action D.World String
  deploy_collateral_adapter verify = D.construct "CollateralAdapter" [] >>= λ instance1.
      with_save_and_verify D instance1 "CollateralAdapterImpl" [] verify >>= λ impl.
      D.addresses_provider
      >> (D.set_address_as_proxy "COLLATERAL_ADAPTER" impl
          >> (D.get_address "COLLATERAL_ADAPTER" >>= λ proxy.
              insert_contract_address_in_db D "CollateralAdapter" proxy >> get_collateral_adapter))
